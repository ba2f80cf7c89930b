-- ===== src/Archive/Ends.antt =====
-- crates/kiry-core/src/archive.rs, `Ends`: the zero bytes at the end of what was read.
use mathlib.Core.List.{reverse-append}
use kiry.Base.{
  ℕ, ◌+◌, ◌≡◌, ◌∙◌, ap, List, [], ◌∷◌, ◌++◌, reverse, reverse_aux, append-nil, ◌==◌, nat_eq, length,
  arith, if◌then◌else◌, append_assoc,
}

-- `take_while(|&&b| b == 0).count()`
unfoldable pub leading_zeros : List ℕ → ℕ
leading_zeros [] = 0
leading_zeros (b ∷ bs) = if b == 0 then leading_zeros bs + 1 else 0

-- `Ends::read`, with what the inner reader put into the buffer.
unfoldable pub read : ℕ → List ℕ → ℕ
unfolding leading_zeros
read zeros buf =
    let tail = leading_zeros (reverse buf) in
    if tail == length buf then zeros + length buf else tail

-- The reads of a whole stream.
unfoldable pub read_all : ℕ → List (List ℕ) → ℕ
unfolding read
read_all zeros [] = zeros
read_all zeros (buf ∷ bufs) = read_all (read zeros buf) bufs

-- The stream, in one piece.
abbrev pub stream : List (List ℕ) → List ℕ
stream [] = []
stream (buf ∷ bufs) = buf ++ stream bufs

-- The zero bytes that a stream ends in.
abbrev pub tail_zeros : List ℕ → ℕ
tail_zeros bytes = leading_zeros (reverse bytes)

leading_zeros-append :
    (xs ys : List ℕ)
    → leading_zeros (xs ++ ys)
      ≡ (if leading_zeros xs == length xs then leading_zeros ys + length xs else leading_zeros xs)
unfolding leading_zeros
leading_zeros-append [] ys = ground arith
leading_zeros-append (x ∷ xs) ys = ground (arith, leading_zeros-append xs ys)

length-reverse_aux : (xs ys : List ℕ) → length (reverse_aux xs ys) ≡ length xs + length ys
length-reverse_aux [] ys = omega arith
length-reverse_aux (x ∷ xs) ys = omega (arith, length-reverse_aux xs (x ∷ ys))

read-tail_zeros : (pre buf : List ℕ) → read (tail_zeros pre) buf ≡ tail_zeros (pre ++ buf)
unfolding read
read-tail_zeros pre buf =
    rw (reverse-append pre buf)
      (ground (arith, leading_zeros-append (reverse buf) (reverse pre), length-reverse_aux buf []))

read_all-tail_zeros :
    (pre : List ℕ) (bufs : List (List ℕ))
    → read_all (tail_zeros pre) bufs ≡ tail_zeros (pre ++ stream bufs)
unfolding read_all
read_all-tail_zeros pre [] = rw append-nil
read_all-tail_zeros pre (buf ∷ bufs) =
    ap (λ z. read_all z bufs) (read-tail_zeros pre buf)
    ∙ read_all-tail_zeros (pre ++ buf) bufs
    ∙ rw append_assoc

-- However the stream was cut into reads, what is counted is the zero bytes that it ends in.
pub read_all_lem : (bufs : List (List ℕ)) → read_all 0 bufs ≡ tail_zeros (stream bufs)
unfolding leading_zeros
read_all_lem bufs = read_all-tail_zeros [] bufs
