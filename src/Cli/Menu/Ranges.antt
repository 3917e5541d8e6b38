-- ===== src/Cli/Menu/Ranges.antt =====
-- That the configurations stay in their ranges.
use gpu_over_ip_capnp.Base.{
  ℕ, ◌-◌, ◌≡◌, ◌≢◌, Bool, true, false, ◌||◌, Option, none, some, List, [], ◌∷◌, ◌++◌, if◌then◌else◌,
  ◌==◌, ltb, length, get_or, Text, ℤ, pos, negsuc, Map, lookup, insert, lookup-insert, All,
  AllValues, insert-AllValues, lookup-AllValues, Option-cases, inl, inr, arith,
}
use gpu_over_ip_capnp.Float.{Float}
use gpu_over_ip_capnp.Go.{trim_space, atoi, first_field, split_comma}
use gpu_over_ip_capnp.Cli.Menu.{
  Input, NumaConfig, Mode, main, roce, closed, pick, bind, setting, percent, ratio, control_name,
  data_name, Menu, configure_node, choice, main_choice, rdma_lines, add_roce, pick_from,
  roce_choice, bind_to, picked, bound, setting_choice, set_percent, set_ratio, read_in, read,
  read_all,
}

module _ (f : Float) (parse_float : Text → Option f.Real) where
  -- What the code accepts: more than 0 and at most 90 percent, where the prompt asks for 1 to 90, and
  -- a ratio from 0.1 to 0.9.
  pub record InRange (c : NumaConfig f parse_float) : Type 0 where
    pub above : f.less (f.lit 0 1) c.mem_percent ≡ true
    pub at_most_90 : f.less (f.lit 90 1) c.mem_percent ≡ false
    pub from_tenth : f.less c.vmem_ratio (f.lit 1 10) ≡ false
    pub to_nine_tenths : f.less (f.lit 9 10) c.vmem_ratio ≡ false

  -- Also the copy that a mode holds.
  abbrev pub ModeInRange : Mode f parse_float → Type 0
  ModeInRange main = Unit
  ModeInRange roce = Unit
  ModeInRange closed = Unit
  ModeInRange (pick ds) = Unit
  ModeInRange (bind selected pci) = Unit
  ModeInRange (setting id c) = InRange c
  ModeInRange (percent id c) = InRange c
  ModeInRange (ratio id c) = InRange c
  ModeInRange (control_name id c) = InRange c
  ModeInRange (data_name id c) = InRange c

  pub record IsSafe (s : Menu f parse_float) : Type 0 where
    pub configs : AllValues InRange s.configs
    pub node0 : lookup 0 s.configs ≢ none
    pub node1 : lookup 1 s.configs ≢ none
    pub starts : All (AllValues InRange) s.starts
    pub mode : ModeInRange s.mode

  All-snoc :
      (P : Map (NumaConfig f parse_float) → Type 0) (xs : List (Map (NumaConfig f parse_float)))
      (x : Map (NumaConfig f parse_float))
      → All P xs
      → P x
      → All P (xs ++ x ∷ [])
  All-snoc P [] x h p = (p, tt)
  All-snoc P (y ∷ xs) x h p = (h.0, All-snoc P xs x h.1 p)

  set_percent-InRange :
      (c : NumaConfig f parse_float) (o : Option f.Real)
      → InRange c
      → InRange (set_percent f parse_float c o)
  unfolding set_percent
  set_percent-InRange c none v = v
  set_percent-InRange c (some value) v = ground arith

  set_ratio-InRange :
      (c : NumaConfig f parse_float) (o : Option f.Real)
      → InRange c
      → InRange (set_ratio f parse_float c o)
  unfolding set_ratio
  set_ratio-InRange c none v = v
  set_ratio-InRange c (some value) v = ground arith

  go-IsSafe :
      (mode : Mode f parse_float) {s : Menu f parse_float}
      → IsSafe s
      → ModeInRange mode
      → IsSafe (record s { mode = mode })
  go-IsSafe mode v h = record {
    configs = v.configs;
    node0 = v.node0;
    node1 = v.node1;
    starts = v.starts;
    mode = h;
  }

  configure_node-IsSafe :
      (id : ℕ) {s : Menu f parse_float}
      → IsSafe s
      → lookup id s.configs ≢ none
      → IsSafe (configure_node f parse_float id s)
  unfolding configure_node
  configure_node-IsSafe id {s} v known = elim (Option-cases (lookup id s.configs)) [
    | inl e ↦ absurd (known e)
    | inr (c, e) ↦ go-IsSafe _ v (rw e (lookup-AllValues InRange id s.configs c v.configs e))
  ]

  if-IsSafe :
      (b : Bool) {s t : Menu f parse_float} → IsSafe s → IsSafe t → IsSafe (if b then s else t)
  if-IsSafe true v w = v
  if-IsSafe false v w = w

  main_choice-IsSafe :
      (o : Option ℕ) {s : Menu f parse_float} → IsSafe s → IsSafe (main_choice f parse_float o s)
  unfolding main_choice
  main_choice-IsSafe none v = v
  main_choice-IsSafe (some n) {s} v =
      let started : IsSafe (record s { starts = s.starts ++ s.configs ∷ [] }) = record {
        configs = v.configs;
        node0 = v.node0;
        node1 = v.node1;
        starts = All-snoc (AllValues InRange) s.starts s.configs v.starts v.configs;
        mode = v.mode;
      } in
      if-IsSafe (n == 1) (configure_node-IsSafe 0 v v.node0) (
        if-IsSafe (n == 2) (configure_node-IsSafe 1 v v.node1) (
          if-IsSafe (n == 3) started
            (if-IsSafe (n == 4) (go-IsSafe roce v tt) (go-IsSafe closed v tt))))

  add_roce-IsSafe :
      (o : Option (List Text)) {s : Menu f parse_float}
      → IsSafe s
      → IsSafe (add_roce f parse_float o s)
  unfolding add_roce
  add_roce-IsSafe none v = v
  add_roce-IsSafe (some lines) {s} v = from_lines (rdma_lines lines)
    where
      from_lines : (ds : List Text) → IsSafe (pick_from f parse_float ds s)
      from_lines [] = v
      from_lines (d ∷ ds) = go-IsSafe (pick (d ∷ ds)) v tt

  roce_choice-IsSafe :
      (lspci : Option (List Text)) (o : Option ℕ) {s : Menu f parse_float}
      → IsSafe s
      → IsSafe (roce_choice f parse_float lspci o s)
  unfolding roce_choice
  roce_choice-IsSafe lspci none v = v
  roce_choice-IsSafe lspci (some n) v =
      if-IsSafe (n == 1) (add_roce-IsSafe lspci v) (if-IsSafe (n == 5) (go-IsSafe main v tt) v)

  bind_to-IsSafe :
      (selected : Text) (o : Option Text) {s : Menu f parse_float}
      → IsSafe s
      → IsSafe (bind_to f parse_float selected o s)
  bind_to-IsSafe selected none v = go-IsSafe roce v tt
  bind_to-IsSafe selected (some pci) v = go-IsSafe (bind selected pci) v tt

  picked-IsSafe :
      (ds : List Text) (o : Option ℤ) {s : Menu f parse_float}
      → IsSafe s
      → IsSafe (picked f parse_float ds o s)
  unfolding picked
  picked-IsSafe ds none v = go-IsSafe roce v tt
  picked-IsSafe ds (some (negsuc n)) v = go-IsSafe roce v tt
  picked-IsSafe ds (some (pos n)) v =
      if-IsSafe (ltb n 1 || ltb (length ds) n) (go-IsSafe roce v tt)
        (bind_to-IsSafe (get_or ds (n - 1) []) (first_field (get_or ds (n - 1) [])) v)

  bound-IsSafe :
      (selected pci : Text) (fields : List Text) {s : Menu f parse_float}
      → IsSafe s
      → IsSafe (bound f parse_float selected pci fields s)
  unfolding bound
  bound-IsSafe selected pci fields v = record {
    configs = v.configs;
    node0 = v.node0;
    node1 = v.node1;
    starts = v.starts;
    mode = tt;
  }

  -- A copy that is saved was in range.
  saved-IsSafe :
      (id : ℕ) (c : NumaConfig f parse_float) {s : Menu f parse_float}
      → IsSafe s
      → InRange c
      → IsSafe (record s { configs = insert id c s.configs; mode = main })
  saved-IsSafe id c {s} v h = record {
    configs = insert-AllValues InRange id c s.configs h v.configs;
    node0 = ground (arith, lookup-insert 0 id c s.configs, v.node0);
    node1 = ground (arith, lookup-insert 1 id c s.configs, v.node1);
    starts = v.starts;
    mode = tt;
  }

  setting_choice-IsSafe :
      (id : ℕ) (c : NumaConfig f parse_float) (o : Option ℕ) {s : Menu f parse_float}
      → IsSafe s
      → InRange c
      → IsSafe (setting_choice f parse_float id c o s)
  unfolding setting_choice
  setting_choice-IsSafe id c none v h = v
  setting_choice-IsSafe id c (some n) v h = if-IsSafe (n == 1) (go-IsSafe (percent id c) v h) (
      if-IsSafe (n == 2) (go-IsSafe (ratio id c) v h) (
        if-IsSafe (n == 3) (go-IsSafe (control_name id c) v h)
          (if-IsSafe (n == 4) (saved-IsSafe id c v h) v)))

  read_in-IsSafe :
      (mode : Mode f parse_float) (i : Input) {s : Menu f parse_float}
      → IsSafe s
      → ModeInRange mode
      → IsSafe (read_in f parse_float mode i s)
  unfolding read_in
  read_in-IsSafe main i v h = main_choice-IsSafe (choice f parse_float (atoi (trim_space i.line))) v
  read_in-IsSafe roce i v h =
      roce_choice-IsSafe i.lspci (choice f parse_float (atoi (trim_space i.line))) v
  read_in-IsSafe closed i v h = v
  read_in-IsSafe (pick ds) i v h = picked-IsSafe ds (atoi (trim_space i.line)) v
  read_in-IsSafe (bind selected pci) i {s} v h =
      bound-IsSafe selected pci (split_comma (trim_space i.line)) v
  read_in-IsSafe (setting id c) i v h =
      setting_choice-IsSafe id c (choice f parse_float (atoi (trim_space i.line))) v h
  read_in-IsSafe (percent id c) i v h =
      go-IsSafe _ v (set_percent-InRange c (parse_float (trim_space i.line)) h)
  read_in-IsSafe (ratio id c) i v h =
      go-IsSafe _ v (set_ratio-InRange c (parse_float (trim_space i.line)) h)
  read_in-IsSafe (control_name id c) i v h = go-IsSafe _ v (ground arith)
  read_in-IsSafe (data_name id c) i v h = go-IsSafe _ v (ground arith)

  -- Whatever lines are read, from a state in which both nodes have configurations, all of them and
  -- the copy being edited in range, the program reaches only such states, and every start of the
  -- containers is given configurations in range. In range is more than 0 and at most 90 percent, not
  -- the 1 to 90 of the prompt, so that 0.5 percent is in range, and a ratio from 0.1 to 0.9.
  pub read_all-IsSafe :
      (inputs : List Input) (s : Menu f parse_float)
      → IsSafe s
      → IsSafe (read_all f parse_float inputs s)
  unfolding read_all read
  read_all-IsSafe [] s v = v
  read_all-IsSafe (i ∷ inputs) s v =
      read_all-IsSafe inputs (read f parse_float i s) (read_in-IsSafe s.mode i v v.mode)
