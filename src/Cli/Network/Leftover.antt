-- ===== src/Cli/Network/Leftover.antt =====
-- That the interface of a set-up cannot be cleaned up.
use gpu_over_ip_capnp.Base.{
  ℕ, ◌≡◌, ◌≢◌, refl, sym, ap, ◌∙◌, Bool, true, false, ◌||◌, List, [], ◌∷◌, ◌++◌, Text, codes,
  Bool-cases, inl, inr, arith, All,
}
use gpu_over_ip_capnp.Go.{contains}
use gpu_over_ip_capnp.Cli.Network.{
  Run, Shell, Setup, configured, not_mapped, add_failed, up_failed, netns_failed, move_failed,
  inner_up_failed, address_failed, route_failed, macvlan, namespace, physical_interface, link_add,
  link_up, netns_add, link_move, link_delete, inside, address_add, route_add, try_run, try_netns,
  setup_macvlan, cleanup_macvlan, from_up, from_netns, from_move, from_inner_up, from_address,
  from_route, address, gateway,
}

-- Commands in a namespace that leave its interfaces where they are.
pub data IsQuiet (ns : Text) : Run → Type 0 where
  quiet_up : (name : Text) (ok : Bool) → IsQuiet ns (inside ns (link_up name), ok)
  quiet_address : (name ip : Text) (ok : Bool) → IsQuiet ns (inside ns (address_add name ip), ok)
  quiet_route : (gateway : Text) (ok : Bool) → IsQuiet ns (inside ns (route_add gateway), ok)

-- An interface that was moved to a namespace is not found outside of it, as the documentation of
-- network namespaces has it.
abbrev pub HidesMoved : Shell → Type 0
HidesMoved r =
    (name ns : Text) (later before : List Run)
    → All (IsQuiet ns) later
    → (r (later ++ (link_move name ns, true) ∷ before) (link_delete name)).0 ≡ false

abbrev is_configured : Setup → Bool
is_configured configured = true
is_configured not_mapped = false
is_configured add_failed = false
is_configured up_failed = false
is_configured netns_failed = false
is_configured move_failed = false
is_configured inner_up_failed = false
is_configured address_failed = false
is_configured route_failed = false

not_configured : {s : Setup} → is_configured s ≡ false → s ≢ configured
not_configured h e = true_false (sym (ap is_configured e) ∙ h)
  where
    true_false : true ≢ false
    true_false c = cc

module _ (r : Shell) where
  try_run-true :
      (words : List Text) (error : Setup) (more : List Run → Setup × List Run) (before : List Run)
      → (r before words).0 ≡ true
      → try_run r words error more before ≡ more ((words, true) ∷ before)
  unfolding try_run
  try_run-true words error more before ok = rw ok refl

  try_run-false :
      (words : List Text) (error : Setup) (more : List Run → Setup × List Run) (before : List Run)
      → (r before words).0 ≡ false
      → (try_run r words error more before).0 ≡ error
  unfolding try_run
  try_run-false words error more before failed = rw failed refl

  -- A command that did not end the set-up has succeeded.
  try_run-configured :
      (words : List Text) (error : Setup) (more : List Run → Setup × List Run)
      (before after : List Run)
      → try_run r words error more before ≡ (configured, after)
      → is_configured error ≡ false
      → more ((words, true) ∷ before) ≡ (configured, after)
  try_run-configured words error more before after e bad = elim (Bool-cases (r before words).0) [
    | inl ok ↦ sym (try_run-true words error more before ok) ∙ e
    | inr failed ↦ absurd (
        not_configured bad (
          sym (try_run-false words error more before failed)
          ∙ ap (λ (p : Setup × List Run). p.0) e))
  ]

  try_netns-configured :
      (words : List Text) (more : List Run → Setup × List Run) (before after : List Run)
      → try_netns r words more before ≡ (configured, after)
      → (ok : Bool) × (more ((words, ok) ∷ before) ≡ (configured, after))
  unfolding try_netns
  try_netns-configured words more before after e =
      elim (Bool-cases
        ((r before words).0 || contains (r before words).1 (codes "already exists"))) [
          | inl passed ↦ ((r before words).0, ground arith)
          | inr failed ↦ absurd (ground arith)
        ]

  -- The commands in the namespace, where they succeed.
  from_inner_up-configured :
      (i : ℕ) (before after : List Run)
      → from_inner_up r i before ≡ (configured, after)
      → (later : List Run) × All (IsQuiet (namespace i)) later × (after ≡ later ++ before)
  unfolding from_inner_up from_address from_route
  from_inner_up-configured i before after e =
      let ns = namespace i in
      let first = inside ns (link_up (macvlan i)) in
      let second = inside ns (address_add (macvlan i) (address i)) in
      let third = inside ns (route_add (gateway i)) in
      let one = (first, true) ∷ before in
      let two = (second, true) ∷ one in
      let a = try_run-configured first inner_up_failed (from_address r i) before after e refl in
      let b = try_run-configured second address_failed (from_route r i) one after a refl in
      let c = try_run-configured third route_failed (λ runs. (configured, runs)) two after b refl in
      (
        (third, true) ∷ (second, true) ∷ (first, true) ∷ [],
        (
          quiet_route (gateway i) true,
          (quiet_address (macvlan i) (address i) true, (quiet_up (macvlan i) true, tt)),
        ),
        sym (ap (λ (p : Setup × List Run). p.1) c),
      )

  -- The commands of a set-up that succeeds, the last one first.
  setup_macvlan-configured :
      (i : ℕ) (before after : List Run)
      → setup_macvlan r i before ≡ (configured, after)
      → (later earlier : List Run) × All (IsQuiet (namespace i)) later
        × (after ≡ later ++ (link_move (macvlan i) (namespace i), true) ∷ earlier)
  unfolding setup_macvlan from_up from_netns from_move
  setup_macvlan-configured i before after e =
      let name = macvlan i in
      let ns = namespace i in
      let added = (link_add name (physical_interface i) (codes "bridge"), true) ∷ before in
      let raised = (link_up name, true) ∷ added in
      let a =
        try_run-configured (link_add name (physical_interface i) (codes "bridge")) add_failed
          (from_up r i) before after e refl in
      let b = try_run-configured (link_up name) up_failed (from_netns r i) added after a refl in
      let (ok, c) = try_netns-configured (netns_add ns) (from_move r i) raised after b in
      let made = (netns_add ns, ok) ∷ raised in
      let d =
        try_run-configured (link_move name ns) move_failed (from_inner_up r i) made after c refl in
      let (later, quiet, same) =
        from_inner_up-configured i ((link_move name ns, true) ∷ made) after d in
      (later, made, quiet, same)

  -- Where a moved interface is hidden, the clean-up after a set-up of a node that succeeded fails:
  -- the interface of the node is left over in its namespace.
  pub cleanup-setup_macvlan :
      HidesMoved r
      → (i : ℕ) (before after : List Run) → setup_macvlan r i before ≡ (configured, after)
      → (cleanup_macvlan r i after).0 ≡ false
  unfolding cleanup_macvlan
  cleanup-setup_macvlan hides i before after e =
      let (later, earlier, quiet, same) = setup_macvlan-configured i before after e in
      ap (λ runs. (r runs (link_delete (macvlan i))).0) same
      ∙ hides (macvlan i) (namespace i) later earlier quiet
