-- ===== src/Go/Fields.antt =====
-- The fields of a text with numbers in it, and the search for a text in another.
use gpu_over_ip_capnp.Base.{
  ℕ, zero, suc, ◌≡◌, refl, sym, ap, ◌∙◌, true, false, [], ◌∷◌, ◌++◌, append_assoc, append-nil, Text,
  All, replicate, decimal, decimal_head, AllDigits, decimal-AllDigits, arith,
}
use gpu_over_ip_capnp.Go.{is_space, words, add_word, contains}

abbrev pub NoSpace : Text → Type 0
NoSpace t = All (λ c. is_space c ≡ false) t

AllDigits-NoSpace : (t : Text) → AllDigits t → NoSpace t
AllDigits-NoSpace [] h = tt
AllDigits-NoSpace (c ∷ t) h = (ground arith, AllDigits-NoSpace t h.1)

-- A word and the space behind it.
words-word :
    (w t rest : Text) → NoSpace t → words w (t ++ b' ' ∷ rest) ≡ add_word (w ++ t) (words [] rest)
words-word w [] rest h = ap (λ v. add_word v (words [] rest)) (sym (append-nil w))
words-word w (c ∷ t) rest h = rw h.0 (
    words-word (w ++ c ∷ []) t rest h.1
    ∙ ap (λ v. add_word v (words [] rest)) (append_assoc w (c ∷ []) t))

pub words-decimal :
    (n : ℕ) (rest : Text) → words [] (decimal n ++ b' ' ∷ rest) ≡ decimal n ∷ words [] rest
words-decimal n rest =
    let (c, t, e, d) = decimal_head n in
    words-word [] (decimal n) rest (AllDigits-NoSpace (decimal n) (decimal-AllDigits n))
    ∙ ap (λ v. add_word v (words [] rest)) e
    ∙ ap (λ v. v ∷ words [] rest) (sym e)

pub words-spaces : (k : ℕ) (t : Text) → words [] (replicate k b' ' ++ t) ≡ words [] t
words-spaces zero t = refl
words-spaces (suc k) t = words-spaces k t

-- What a text contains stays in it whatever stands before.
pub contains-append : (t u p : Text) → contains u p ≡ true → contains (t ++ u) p ≡ true
unfolding contains
contains-append [] u p h = h
contains-append (c ∷ t) u p h = ground (arith, contains-append t u p h)
