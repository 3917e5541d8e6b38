-- ===== src/Cli/Menu/Returns.antt =====
-- How the menus end.
use gpu_over_ip_capnp.Base.{
  ◌≤◌, ◌≡◌, refl, ◌∙◌, Bool, true, false, Option, none, some, List, [], ◌∷◌, length, Text, codes,
  pos, arith,
}
use gpu_over_ip_capnp.Float.{Float}
use gpu_over_ip_capnp.Go.{trim_space, atoi}
use gpu_over_ip_capnp.Cli.Menu.{
  Input, Mode, main, roce, closed, pick, bind, setting, percent, ratio, control_name, data_name,
  Menu, main_choice, roce_choice, picked, bound, setting_choice, read_in, read,
}

abbrev pub typed : Text → Input
typed line = record { line = line; lspci = none }

typed_four : atoi (trim_space (codes "4")) ≡ some (pos 4)
unfolding atoi trim_space
typed_four = refl

typed_five : atoi (trim_space (codes "5")) ≡ some (pos 5)
unfolding atoi trim_space
typed_five = refl

typed_nothing : atoi (trim_space []) ≡ none
unfolding atoi trim_space
typed_nothing = refl

module _ (f : Float) (parse_float : Text → Option f.Real) where
  abbrev pub is_closed : Mode f parse_float → Bool
  is_closed closed = true
  is_closed main = false
  is_closed roce = false
  is_closed (pick ds) = false
  is_closed (bind selected pci) = false
  is_closed (setting id c) = false
  is_closed (percent id c) = false
  is_closed (ratio id c) = false
  is_closed (control_name id c) = false
  is_closed (data_name id c) = false

  -- What a user types to return from a place.
  abbrev pub way_out : Mode f parse_float → List Text
  way_out closed = []
  way_out main = codes "5" ∷ []
  way_out roce = codes "5" ∷ codes "5" ∷ []
  way_out (pick ds) = [] ∷ codes "5" ∷ codes "5" ∷ []
  way_out (bind selected pci) = [] ∷ codes "5" ∷ codes "5" ∷ []
  way_out (setting id c) = codes "4" ∷ codes "5" ∷ []
  way_out (percent id c) = [] ∷ codes "4" ∷ codes "5" ∷ []
  way_out (ratio id c) = [] ∷ codes "4" ∷ codes "5" ∷ []
  way_out (control_name id c) = [] ∷ [] ∷ codes "4" ∷ codes "5" ∷ []
  way_out (data_name id c) = [] ∷ codes "4" ∷ codes "5" ∷ []

  abbrev pub type_all : List Text → Menu f parse_float → Menu f parse_float
  type_all [] s = s
  type_all (line ∷ lines) s = type_all lines (read f parse_float (typed line) s)

  -- A read behind the end of the input.
  abbrev pub blank : Option (List Text) → Input
  blank lspci = record { line = []; lspci = lspci }

  read_in-blank :
      (lspci : Option (List Text)) (mode : Mode f parse_float) (s : Menu f parse_float)
      → s.mode ≡ mode
      → is_closed (read_in f parse_float mode (blank lspci) s).mode ≡ is_closed mode
  unfolding read_in main_choice roce_choice picked bound setting_choice
  read_in-blank lspci main s at = rw (typed_nothing, at) refl
  read_in-blank lspci roce s at = rw (typed_nothing, at) refl
  read_in-blank lspci closed s at = rw at refl
  read_in-blank lspci (pick ds) s at = rw typed_nothing refl
  read_in-blank lspci (bind selected pci) s at = refl
  read_in-blank lspci (setting id c) s at = rw (typed_nothing, at) refl
  read_in-blank lspci (percent id c) s at = refl
  read_in-blank lspci (ratio id c) s at = refl
  read_in-blank lspci (control_name id c) s at = refl
  read_in-blank lspci (data_name id c) s at = refl

  abbrev pub read_blank : List (Option (List Text)) → Menu f parse_float → Menu f parse_float
  read_blank [] s = s
  read_blank (lspci ∷ more) s = read_blank more (read f parse_float (blank lspci) s)

  read_blank-closed :
      (more : List (Option (List Text))) (s : Menu f parse_float)
      → is_closed (read_blank more s).mode ≡ is_closed s.mode
  unfolding read
  read_blank-closed [] s = refl
  read_blank-closed (lspci ∷ more) s =
      read_blank-closed more (read f parse_float (blank lspci) s)
      ∙ read_in-blank lspci s.mode s refl

  way_out-closes :
      (mode : Mode f parse_float) (s : Menu f parse_float)
      → s.mode ≡ mode
      → is_closed (type_all (way_out mode) s).mode ≡ true
  unfolding read read_in main_choice roce_choice picked bound setting_choice
  way_out-closes main s at = rw (at, typed_five) refl
  way_out-closes roce s at = rw (at, typed_five, typed_five) refl
  way_out-closes closed s at = rw at refl
  way_out-closes (pick ds) s at = rw (at, typed_nothing, typed_five, typed_five) refl
  way_out-closes (bind selected pci) s at = rw (at, typed_five, typed_five) refl
  way_out-closes (setting id c) s at = rw (at, typed_four, typed_five) refl
  way_out-closes (percent id c) s at = rw (at, typed_four, typed_five) refl
  way_out-closes (ratio id c) s at = rw (at, typed_four, typed_five) refl
  way_out-closes (control_name id c) s at = rw (at, typed_four, typed_five) refl
  way_out-closes (data_name id c) s at = rw (at, typed_four, typed_five) refl

  length-way_out : (mode : Mode f parse_float) → length (way_out mode) ≤ 4
  length-way_out main = omega arith
  length-way_out roce = omega arith
  length-way_out closed = omega arith
  length-way_out (pick ds) = omega arith
  length-way_out (bind selected pci) = omega arith
  length-way_out (setting id c) = omega arith
  length-way_out (percent id c) = omega arith
  length-way_out (ratio id c) = omega arith
  length-way_out (control_name id c) = omega arith
  length-way_out (data_name id c) = omega arith

  -- From every place of the menus at most four lines lead to the return of the main menu, but the
  -- end of the input does not: after any number of reads behind it, a menu that has not returned
  -- still has not.
  pub menu_returns :
      (s : Menu f parse_float) (more : List (Option (List Text)))
      → (is_closed (type_all (way_out s.mode) s).mode ≡ true)
        × (length (way_out s.mode) ≤ 4)
        × (is_closed (read_blank more s).mode ≡ is_closed s.mode)
  menu_returns s more =
      (way_out-closes s.mode s refl, length-way_out s.mode, read_blank-closed more s)
