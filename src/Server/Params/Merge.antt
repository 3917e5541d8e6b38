-- ===== src/Server/Params/Merge.antt =====
-- The buffer that the loop over the parameters fills, against their concatenation.
use gpu_over_ip_capnp.Base.{
  ℕ, zero, suc, ◌+◌, ◌<◌, ◌≤◌, ◌≡◌, refl, sym, ap, ◌∙◌, Bool, true, false, ◌&&◌, none, some, List,
  [], ◌∷◌, ◌++◌, append_assoc, append-nil, if◌then◌else◌, replicate, leb, ltb, ltb→le, length,
  length-replicate, length-append, split_at, arith, Bool-cases, inl, inr,
}
use gpu_over_ip_capnp.Server.Params.{overwrite, behind, copy_at, merge_params, sized_buffer}

abbrev pub concat : List (List ℕ) → List ℕ
concat [] = []
concat (v ∷ vs) = v ++ concat vs

-- No parameter starts behind the end of a buffer of `size` bytes.
abbrev pub starts_within : ℕ → ℕ → List (List ℕ) → Bool
starts_within size offset [] = true
starts_within size offset (v ∷ vs) = leb offset size && starts_within size (offset + length v) vs

copy_at-append :
    (pre buf v : List ℕ) (n : ℕ)
    → n ≡ length pre
    → copy_at n (pre ++ buf) v ≡ some (pre ++ overwrite buf v)
unfolding copy_at
copy_at-append [] buf v zero e = refl
copy_at-append [] buf v (suc n) e = absurd (omega arith)
copy_at-append (b ∷ pre) buf v zero e = absurd (omega arith)
copy_at-append (b ∷ pre) buf v (suc n) e = ap (behind b) (copy_at-append pre buf v n (omega arith))

copy_at_behind : (n : ℕ) (buf v : List ℕ) → length buf < n → copy_at n buf v ≡ none
unfolding copy_at
copy_at_behind zero buf v h = absurd (omega arith)
copy_at_behind (suc n) [] v h = refl
copy_at_behind (suc n) (b ∷ buf) v h = ap (behind b) (copy_at_behind n buf v (omega arith))

-- A parameter that fits leaves the rest of the buffer; one that does not fills it.
overwrite-append :
    (buf v w : List ℕ)
    → length v ≤ length buf
    → overwrite buf (v ++ w) ≡ v ++ overwrite (split_at (length v) buf).1 w
overwrite-append buf [] w h = refl
overwrite-append [] (x ∷ v) w h = absurd (omega arith)
overwrite-append (b ∷ buf) (x ∷ v) w h = ap (λ t. x ∷ t) (overwrite-append buf v w (omega arith))

overwrite_longer :
    (buf v w : List ℕ) → length buf ≤ length v → overwrite buf (v ++ w) ≡ overwrite buf v
overwrite_longer [] v w h = refl
overwrite_longer (b ∷ buf) [] w h = absurd (omega arith)
overwrite_longer (b ∷ buf) (x ∷ v) w h = ap (λ t. x ∷ t) (overwrite_longer buf v w (omega arith))

overwrite_nil : (buf : List ℕ) → overwrite buf [] ≡ buf
overwrite_nil [] = refl
overwrite_nil (b ∷ buf) = refl

overwrite_fits :
    (buf v : List ℕ) → length v ≤ length buf → overwrite buf v ≡ v ++ (split_at (length v) buf).1
overwrite_fits buf v h =
    ap (overwrite buf) (sym (append-nil v))
    ∙ overwrite-append buf v [] h
    ∙ ap (λ t. v ++ t) (overwrite_nil _)

pub length-overwrite : (buf v : List ℕ) → length (overwrite buf v) ≡ length buf
length-overwrite [] v = refl
length-overwrite (b ∷ buf) [] = refl
length-overwrite (b ∷ buf) (x ∷ v) = ap suc (length-overwrite buf v)

length-split_at : (n : ℕ) (xs : List ℕ) → n ≤ length xs → length (split_at n xs).1 + n ≡ length xs
length-split_at zero xs h = omega arith
length-split_at (suc n) [] h = absurd (omega arith)
length-split_at (suc n) (x ∷ xs) h = omega (arith, length-split_at n xs (omega arith))

length-split_at_first : (n : ℕ) (xs : List ℕ) → n ≤ length xs → length (split_at n xs).0 ≡ n
length-split_at_first zero xs h = refl
length-split_at_first (suc n) [] h = absurd (omega arith)
length-split_at_first (suc n) (x ∷ xs) h = ap suc (length-split_at_first n xs (omega arith))

merge_params-full :
    (vs : List (List ℕ)) (buf : List ℕ) (n : ℕ)
    → length buf < n
    → merge_params n vs buf ≡ (if starts_within (length buf) n vs then some buf else none)
unfolding merge_params
merge_params-full [] buf n h = refl
merge_params-full (v ∷ vs) buf n h =
    let no : leb n (length buf) ≡ false = ground arith in rw (copy_at_behind n buf v h, no) refl

merge_params-append :
    (vs : List (List ℕ)) (pre buf : List ℕ) (n : ℕ)
    → n ≡ length pre
    → merge_params n vs (pre ++ buf) ≡ (
        if starts_within (length pre + length buf) n vs
        then some (pre ++ overwrite buf (concat vs))
        else none)
unfolding merge_params
merge_params-append [] pre buf n e = ap (λ t. some (pre ++ t)) (sym (overwrite_nil buf))
merge_params-append (v ∷ vs) pre buf n e = elim (Bool-cases (leb (length v) (length buf))) [
  | inl fits ↦
      let rest = (split_at (length v) buf).1 in
      let room : length v ≤ length buf = ground arith in
      let size : length pre + length buf ≡ length (pre ++ v) + length rest =
        omega (arith, length-append pre v, length-split_at (length v) buf room) in
      let whole : (pre ++ v) ++ overwrite rest (concat vs) ≡ pre ++ overwrite buf (v ++ concat vs) =
        append_assoc pre v (overwrite rest (concat vs))
        ∙ ap (λ t. pre ++ t) (sym (overwrite-append buf v (concat vs) room)) in
      let within : leb n (length pre + length buf) ≡ true = ground arith in
      rw (copy_at-append pre buf v n e, overwrite_fits buf v room, ← append_assoc pre v rest)
        (rw
          (merge_params-append vs (pre ++ v) rest (n + length v)
            (omega (arith, length-append pre v)))
          (rw (whole, ← size, within) refl))
  | inr over ↦
      let full : length (pre ++ overwrite buf v) ≡ length pre + length buf =
        omega (arith, length-append pre (overwrite buf v), length-overwrite buf v) in
      let within : leb n (length pre + length buf) ≡ true = ground arith in
      let beyond : length (pre ++ overwrite buf v) < n + length v = ground (arith, full) in
      rw (copy_at-append pre buf v n e, overwrite_longer buf v (concat vs) (ground arith))
        (rw (merge_params-full vs (pre ++ overwrite buf v) (n + length v) beyond)
          (rw (full, within) refl))
]

pub length-sized_buffer : (total : ℕ) (pooled : List ℕ) → length (sized_buffer total pooled) ≡ total
unfolding sized_buffer
length-sized_buffer total pooled = elim (Bool-cases (ltb (length pooled) total)) [
  | inl small ↦ rw small (length-replicate total (zero))
  | inr large ↦ rw large (length-split_at_first total pooled (ltb→le _ _ large))
]

-- A copy is the bytes that fit, and behind them what the buffer held.
overwrite_lem :
    (buf v : List ℕ) → overwrite buf v ≡ (split_at (length buf) v).0 ++ (split_at (length v) buf).1
overwrite_lem [] [] = refl
overwrite_lem [] (x ∷ v) = refl
overwrite_lem (b ∷ buf) [] = refl
overwrite_lem (b ∷ buf) (x ∷ v) = ap (λ t. x ∷ t) (overwrite_lem buf v)

-- What a launch finds in its buffer: zeros, where the array of the pool is smaller than the buffer,
-- and otherwise the first bytes of that array, which an earlier launch left.
abbrev pub found_bytes : ℕ → List ℕ → List ℕ
found_bytes total pooled =
    if ltb (length pooled) total then replicate total 0 else (split_at total pooled).0

-- The bytes of the parameters that fit into the buffer, one after the other, and behind them the
-- bytes that the launch found there.
abbrev pub filled : ℕ → List ℕ → List (List ℕ) → List ℕ
filled total pooled vs =
    (split_at total (concat vs)).0 ++ (split_at (length (concat vs)) (found_bytes total pooled)).1

sized_buffer-found_bytes :
    (total : ℕ) (pooled : List ℕ) → sized_buffer total pooled ≡ found_bytes total pooled
unfolding sized_buffer
sized_buffer-found_bytes total pooled = refl

overwrite-filled :
    (total : ℕ) (pooled : List ℕ) (vs : List (List ℕ))
    → overwrite (sized_buffer total pooled) (concat vs) ≡ filled total pooled vs
overwrite-filled total pooled vs =
    overwrite_lem (sized_buffer total pooled) (concat vs)
    ∙ ap
        (λ n.
          (split_at n (concat vs)).0
          ++ (split_at (length (concat vs)) (sized_buffer total pooled)).1)
        (length-sized_buffer total pooled)
    ∙ ap (λ b. (split_at total (concat vs)).0 ++ (split_at (length (concat vs)) b).1)
        (sized_buffer-found_bytes total pooled)

-- The loop panics exactly where a parameter starts behind the end of the buffer, and otherwise
-- overwrites the buffer by the concatenation.
pub merge_params-overwrite :
    (vs : List (List ℕ)) (total : ℕ) (pooled : List ℕ)
    → merge_params 0 vs (sized_buffer total pooled) ≡ (
        if starts_within total 0 vs
        then some (overwrite (sized_buffer total pooled) (concat vs))
        else none)
merge_params-overwrite vs total pooled =
    merge_params-append vs [] (sized_buffer total pooled) 0 refl
    ∙ ap
        (λ n.
          if starts_within n 0 vs
          then some (overwrite (sized_buffer total pooled) (concat vs))
          else none)
        (omega (arith, length-sized_buffer total pooled))

-- The loop over the parameters panics exactly where one starts behind the end of the buffer.
-- Otherwise it leaves the bytes of the parameters, one after the other, of which those that do not
-- fit are cut, and behind them the bytes of the pool's array that an earlier launch left, or zeros
-- where that array was smaller than the buffer and a new one was made.
pub merge_params_lem :
    (vs : List (List ℕ)) (total : ℕ) (pooled : List ℕ)
    → merge_params 0 vs (sized_buffer total pooled)
      ≡ (if starts_within total 0 vs then some (filled total pooled vs) else none)
merge_params_lem vs total pooled =
    merge_params-overwrite vs total pooled
    ∙ ap (λ b. if starts_within total 0 vs then some b else none) (overwrite-filled total pooled vs)
