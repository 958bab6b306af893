-- ===== src/VectorFile/Bits.antt =====
-- Little-endian words: what `write_le` writes `read_le` reads.
use native.Mathlib.Nat.{pow-suc}
use llamacodelab.Prelude.{
  ℕ, zero, suc, ◌+◌, ◌*◌, ◌/◌, ◌%◌, ◌^◌, ◌<◌, List, [], ◌∷◌, ◌++◌, length, length-append,
  append_assoc, Bytes, ◌≡◌, refl, ap, arith, All,
}
use llamacodelab.Prelude.Result.{ok}
use llamacodelab.VectorFile.{write_le, read_le, write_values, read_values, zeros}

pub read_le-write_le :
    (size v : ℕ) (rest : Bytes)
    → v < 256 ^ size
    → read_le size (write_le size v ++ rest) ≡ ok (v, rest)
unfolding read_le write_le
read_le-write_le zero v rest h = let z : 0 ≡ v = omega arith in ap (λ w. ok (w, rest)) z
read_le-write_le (suc size) v rest h =
    let bound : v < 256 ^ size * 256 = rw (pow-suc 256 size) at h in
    let parts : v % 256 + v / 256 * 256 ≡ v = omega arith in
    rw (read_le-write_le size (v / 256) rest (omega arith)) (ap (λ w. ok (w, rest)) parts)

pub length-write_le : (size v : ℕ) → length (write_le size v) ≡ size
unfolding write_le
length-write_le zero v = refl
length-write_le (suc size) v = ap suc (length-write_le size (v / 2 ^ 8))

pub length-zeros : (n : ℕ) → length (zeros n) ≡ n
unfolding zeros
length-zeros zero = refl
length-zeros (suc n) = ap suc (length-zeros n)

pub read_values-write_values :
    (values : List ℕ) (rest : Bytes)
    → All (λ v. v < 2 ^ 32) values
    → read_values (length values) (write_values values ++ rest) ≡ ok (values, rest)
unfolding read_values write_values
read_values-write_values [] rest h = refl
read_values-write_values (v ∷ values) rest h =
    rw (append_assoc (write_le 4 v) (write_values values) rest) (
      rw (read_le-write_le 4 v (write_values values ++ rest) (omega (arith, h.0)))
        (rw (read_values-write_values values rest h.1) refl))

pub length-write_values : (values : List ℕ) → length (write_values values) ≡ length values * 4
unfolding write_values
length-write_values [] = refl
length-write_values (v ∷ values) = omega (
  arith,
  length-append (write_le 4 v) (write_values values),
  length-write_le 4 v,
  length-write_values values,
)
