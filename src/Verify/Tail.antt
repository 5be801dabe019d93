-- ===== src/Verify/Tail.antt =====
-- exec.go: `tailBuffer`, which keeps the end of a command's output.
use mathlib.Core.List.{foldl, flatten, append_assoc, append-nil}
use jacu_harness.Base.{
  ℕ, ◌+◌, ◌-◌, ◌≤◌, ◌<◌, ◌≡◌, refl, sym, ap, subst, ◌∙◌, inl, inr, Bool, true, false, List, [], ◌∷◌,
  ◌++◌, if◌then◌else◌, ltb, leb, arith, length, length-append, drop, drop-append_over,
  drop-append_under, drop-drop, drop-nil, length-drop, Bool-cases,
}

pub record TailBuffer : Type 0 where
  pub limit : ℕ
  pub bytes : List ℕ
  pub total : ℕ
  pub truncated : Bool

unfoldable pub new_tail_buffer : ℕ → TailBuffer
new_tail_buffer limit = record { limit = limit; bytes = []; total = 0; truncated = false }

-- `Write`
unfoldable pub write : TailBuffer → List ℕ → TailBuffer
write t chunk =
    let total = t.total + length chunk in
    if leb t.limit (length chunk)
    then record {
      limit = t.limit;
      total = total;
      bytes = drop (length chunk - t.limit) chunk;
      truncated = true;
    }
    else if ltb t.limit (length t.bytes + length chunk)
    then record {
      limit = t.limit;
      total = total;
      bytes = drop (length t.bytes + length chunk - t.limit) t.bytes ++ chunk;
      truncated = true;
    }
    else record {
      limit = t.limit;
      total = total;
      bytes = t.bytes ++ chunk;
      truncated = t.truncated;
    }

-- what `drain` gives the buffer, read by read
unfoldable pub write_all : TailBuffer → List (List ℕ) → TailBuffer
write_all t chunks = foldl write t chunks

-- The last `n` of a list.
unfoldable pub last : ℕ → List ℕ → List ℕ
last n xs = drop (length xs - n) xs

-- What a buffer holds after some output, the limit kept.
record Holds (n : ℕ) (t : TailBuffer) (seen : List ℕ) : Type 0 where
  same_limit : t.limit ≡ n
  same_bytes : t.bytes ≡ last n seen
  same_total : t.total ≡ length seen
  whole : t.truncated ≡ false → t.bytes ≡ seen

last-append_over :
    (n : ℕ) (xs ys : List ℕ) → n ≤ length ys → drop (length ys - n) ys ≡ last n (xs ++ ys)
unfolding last
last-append_over n xs ys h =
    let e : length (xs ++ ys) - n ≡ length xs + (length ys - n) =
      omega (arith, length-append xs ys) in
    rw e (sym (drop-append_over xs ys (length ys - n)))

last-append_under :
    (n : ℕ) (xs ys : List ℕ)
    → length ys < n
    → drop (length (last n xs) + length ys - n) (last n xs) ++ ys ≡ last n (xs ++ ys)
unfolding last
last-append_under n xs ys h =
    let l = length-drop (length xs - n) xs in
    let k = length (drop (length xs - n) xs) + length ys - n in
    let e : length (xs ++ ys) - n ≡ (length xs - n) + k = omega (arith, length-append xs ys, l) in
    let b : (length xs - n) + k ≤ length xs = omega (arith, l) in
    ap (λ d. d ++ ys) (drop-drop (length xs - n) k xs)
    ∙ sym (rw e (drop-append_under xs ys ((length xs - n) + k) b))

drop-none : (xs : List ℕ) (k : ℕ) → k ≡ 0 → drop k xs ≡ xs
drop-none xs k h = rw h refl

write-Holds :
    (n : ℕ) (t : TailBuffer) (seen chunk : List ℕ)
    → Holds n t seen
    → Holds n (write t chunk) (seen ++ chunk)
unfolding write
write-Holds n t seen chunk h =
    let total : t.total + length chunk ≡ length (seen ++ chunk) =
      omega (arith, length-append seen chunk, h.same_total) in
    let l = h.same_limit in
    elim (Bool-cases (leb t.limit (length chunk))) [
      | inl a ↦
          let le : n ≤ length chunk = ground arith in
          rw a (record {
            same_limit = l;
            same_bytes =
                subst (λ m. drop (length chunk - m) chunk ≡ last n (seen ++ chunk)) (sym l)
                  (last-append_over n seen chunk le);
            same_total = total;
            whole = λ q. cc;
          })
      | inr a ↦
          let lt : length chunk < n = ground arith in
          let under = last-append_under n seen chunk lt in
          elim (Bool-cases (ltb t.limit (length t.bytes + length chunk))) [
            | inl b ↦ rw a (
                rw b (record {
                  same_limit = l;
                  same_bytes = rw l (rw h.same_bytes under);
                  same_total = total;
                  whole = λ q. cc;
                }))
            | inr b ↦
                let zero_left : length t.bytes + length chunk - n ≡ 0 = ground arith in
                let z : length (last n seen) + length chunk - n ≡ 0 =
                  subst (λ d. length d + length chunk - n ≡ 0) h.same_bytes zero_left in
                rw a (
                  rw b (record {
                    same_limit = l;
                    same_bytes = rw h.same_bytes (
                        subst (λ d. d ++ chunk ≡ last n (seen ++ chunk))
                          (drop-none (last n seen) (length (last n seen) + length chunk - n) z)
                          under);
                    same_total = total;
                    whole = λ q. ap (λ d. d ++ chunk) (h.whole q);
                  }))
          ]
    ]

write_all-Holds :
    (n : ℕ) (chunks : List (List ℕ)) (t : TailBuffer) (seen : List ℕ)
    → Holds n t seen
    → Holds n (write_all t chunks) (seen ++ flatten chunks)
unfolding write_all flatten
write_all-Holds n [] t seen h = rw (append-nil seen) h
write_all-Holds n (c ∷ cs) t seen h =
    rw (sym (append_assoc seen c (flatten cs)))
      (write_all-Holds n cs (write t c) (seen ++ c) (write-Holds n t seen c h))

-- However the output comes in pieces, the buffer keeps its last `limit` bytes and
-- counts all of them, and where it is not marked as truncated, it holds them all.
write_all-keeps_last :
    (limit : ℕ) (chunks : List (List ℕ))
    → ((write_all (new_tail_buffer limit) chunks).bytes ≡ last limit (flatten chunks))
      × ((write_all (new_tail_buffer limit) chunks).total ≡ length (flatten chunks))
      × ((write_all (new_tail_buffer limit) chunks).truncated ≡ false
          → (write_all (new_tail_buffer limit) chunks).bytes ≡ flatten chunks)
unfolding new_tail_buffer last
write_all-keeps_last limit chunks =
    let h = write_all-Holds limit chunks (new_tail_buffer limit) [] (record {
      same_limit = refl;
      same_bytes = sym (drop-nil (0 - limit));
      same_total = refl;
      whole = λ q. refl;
    }) in
    (h.same_bytes, h.same_total, h.whole)
