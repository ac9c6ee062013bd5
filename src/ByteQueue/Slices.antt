-- ===== src/ByteQueue/Slices.antt =====
-- The bytes between two indices, written, cut and read one by one.
use crypt_mail.Prelude.{
  ℕ, zero, suc, ◌+◌, ◌≤◌, ◌<◌, ◌≡◌, refl, ap, ◌∙◌, List, [], ◌∷◌, ◌++◌, arith, length, take,
}
use crypt_mail.ImapWire.Reader.{drop}
use crypt_mail.ByteQueue.{subarray, overwrite, byte_at}

pub length-overwrite : (at : ℕ) (xs buf : List ℕ) → length (overwrite at xs buf) ≡ length buf
unfolding overwrite
length-overwrite at xs [] = refl
length-overwrite zero [] (b ∷ buf) = refl
length-overwrite zero (x ∷ xs) (b ∷ buf) = ap suc (length-overwrite zero xs buf)
length-overwrite (suc at) xs (b ∷ buf) = ap suc (length-overwrite at xs buf)

pub length-subarray :
    (start end : ℕ) (buf : List ℕ)
    → start ≤ end
    → end ≤ length buf
    → length (subarray start end buf) + start ≡ end
unfolding subarray
length-subarray start zero buf h k = omega arith
length-subarray start (suc end) [] h k = absurd (omega arith)
length-subarray zero (suc end) (b ∷ buf) h k =
    omega (arith, length-subarray zero end buf (omega arith) (omega arith))
length-subarray (suc start) (suc end) (b ∷ buf) h k =
    omega (arith, length-subarray start end buf (omega arith) (omega arith))

-- What is written stands behind what was there.
pub subarray-overwrite :
    (start at end : ℕ) (xs buf : List ℕ)
    → start ≤ at
    → end ≡ at + length xs
    → end ≤ length buf
    → subarray start end (overwrite at xs buf) ≡ subarray start at buf ++ xs
unfolding subarray overwrite
subarray-overwrite start zero zero [] [] h e k = refl
subarray-overwrite start zero zero (x ∷ xs) [] h e k = absurd (omega arith)
subarray-overwrite start zero (suc end) xs [] h e k = absurd (omega arith)
subarray-overwrite start (suc at) end xs [] h e k = absurd (omega arith)
subarray-overwrite zero zero zero [] (b ∷ buf) h e k = refl
subarray-overwrite zero zero zero (x ∷ xs) (b ∷ buf) h e k = absurd (omega arith)
subarray-overwrite zero zero (suc end) [] (b ∷ buf) h e k = absurd (omega arith)
subarray-overwrite zero zero (suc end) (x ∷ xs) (b ∷ buf) h e k =
    ap (λ l. x ∷ l) (subarray-overwrite zero zero end xs buf h (omega arith) (omega arith))
subarray-overwrite start (suc at) zero xs (b ∷ buf) h e k = absurd (omega arith)
subarray-overwrite zero (suc at) (suc end) xs (b ∷ buf) h e k =
    ap (λ l. b ∷ l)
      (subarray-overwrite zero at end xs buf (omega arith) (omega arith) (omega arith))
subarray-overwrite (suc start) zero end xs (b ∷ buf) h e k = absurd (omega arith)
subarray-overwrite (suc start) (suc at) (suc end) xs (b ∷ buf) h e k =
    subarray-overwrite start at end xs buf (omega arith) (omega arith) (omega arith)

-- Taking from the front.
pub subarray-take :
    (n start middle end : ℕ) (buf : List ℕ)
    → middle ≡ start + n
    → middle ≤ end
    → end ≤ length buf
    → (subarray start middle buf ≡ take n (subarray start end buf))
      × (subarray middle end buf ≡ drop n (subarray start end buf))
unfolding subarray
subarray-take zero zero zero end buf e h k = (refl, refl)
subarray-take (suc n) zero zero end buf e h k = absurd (omega arith)
subarray-take n (suc start) zero end buf e h k = absurd (omega arith)
subarray-take n start (suc middle) zero buf e h k = absurd (omega arith)
subarray-take n start (suc middle) (suc end) [] e h k = absurd (omega arith)
subarray-take zero zero (suc middle) (suc end) (b ∷ buf) e h k = absurd (omega arith)
subarray-take (suc n) zero (suc middle) (suc end) (b ∷ buf) e h k =
    let (front, back) =
      subarray-take n zero middle end buf (omega arith) (omega arith) (omega arith) in
    (ap (λ l. b ∷ l) front, back)
subarray-take n (suc start) (suc middle) (suc end) (b ∷ buf) e h k =
    subarray-take n start middle end buf (omega arith) (omega arith) (omega arith)

-- The bytes between two indices, from the first on.
pub subarray_none : (start end : ℕ) (buf : List ℕ) → end ≤ start → subarray start end buf ≡ []
unfolding subarray
subarray_none start zero buf h = refl
subarray_none start (suc end) [] h = refl
subarray_none zero (suc end) (b ∷ buf) h = absurd (omega arith)
subarray_none (suc start) (suc end) (b ∷ buf) h = subarray_none start end buf (omega arith)

pub subarray_first :
    (start end : ℕ) (buf : List ℕ)
    → start < end
    → end ≤ length buf
    → subarray start end buf ≡ byte_at start buf ∷ subarray (suc start) end buf
unfolding subarray
subarray_first start zero buf h k = absurd (omega arith)
subarray_first start (suc end) [] h k = absurd (omega arith)
subarray_first zero (suc end) (b ∷ buf) h k = refl
subarray_first (suc start) (suc end) (b ∷ buf) h k =
    subarray_first start end buf (omega arith) (omega arith)

pub subarray_next :
    (start end : ℕ) (buf : List ℕ)
    → start < end
    → end ≤ length buf
    → subarray start end buf ≡ byte_at start buf ∷ subarray (start + 1) end buf
subarray_next start end buf h k =
    let plus : suc start ≡ start + 1 = omega arith in
    subarray_first start end buf h k ∙ ap (λ n. byte_at start buf ∷ subarray n end buf) plus
