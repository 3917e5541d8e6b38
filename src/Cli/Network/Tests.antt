-- ===== src/Cli/Network/Tests.antt =====
-- A shell that hides an interface that was moved.
use gpu_over_ip_capnp.Base.{
  ◌≡◌, refl, Bool, true, false, ◌&&◌, ◌||◌, not, arith, List, [], ◌∷◌, ◌++◌, Text, codes,
}
use gpu_over_ip_capnp.Go.{same_text}
use gpu_over_ip_capnp.Cli.Network.{
  Run, Shell, configured, link_move, setup_macvlan, cleanup_macvlan, physical_interface, try_run,
  try_netns,
}
use gpu_over_ip_capnp.Cli.Network.Leftover.{HidesMoved, cleanup-setup_macvlan}

-- Words of which the fifth is "netns", and words of which the third is "delete".
abbrev is_move : List Text → Bool
is_move [] = false
is_move (a ∷ []) = false
is_move (a ∷ b ∷ []) = false
is_move (a ∷ b ∷ c ∷ []) = false
is_move (a ∷ b ∷ c ∷ d ∷ []) = false
is_move (a ∷ b ∷ c ∷ d ∷ e ∷ more) = same_text e (codes "netns")

abbrev is_delete : List Text → Bool
is_delete [] = false
is_delete (a ∷ []) = false
is_delete (a ∷ b ∷ []) = false
is_delete (a ∷ b ∷ c ∷ more) = same_text c (codes "delete")

abbrev has_moved : List Run → Bool
has_moved [] = false
has_moved ((words, ok) ∷ runs) = (ok && is_move words) || has_moved runs

abbrev shell : Shell
shell runs words = (not (is_delete words && has_moved runs), [])

has_moved-append :
    (later : List Run) (name ns : Text) (before : List Run)
    → has_moved (later ++ (link_move name ns, true) ∷ before) ≡ true
has_moved-append [] name ns before = refl
has_moved-append ((words, true) ∷ later) name ns before =
    ground (arith, has_moved-append later name ns before)
has_moved-append ((words, false) ∷ later) name ns before = has_moved-append later name ns before

shell-HidesMoved : HidesMoved shell
shell-HidesMoved name ns later before quiet = rw (has_moved-append later name ns before) refl

abbrev runs : List Run
runs = (setup_macvlan shell 1 []).1

set_up : setup_macvlan shell 1 [] ≡ (configured, runs)
unfolding setup_macvlan physical_interface try_run try_netns
set_up = refl

cleanup-setup_macvlan_example : (cleanup_macvlan shell 1 runs).0 ≡ false
cleanup-setup_macvlan_example = cleanup-setup_macvlan shell shell-HidesMoved 1 [] runs set_up
