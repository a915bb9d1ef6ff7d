-- ===== src/AudioEngine/Buffer.antt =====
-- `cappedBuffer` of internal/audioengine/engine.go.
use audio_service.Base.{
  ℕ, zero, suc, ◌-◌, ◌≤◌, ◌<◌, ◌≡◌, refl, Bool, true, false, List, [], ◌∷◌, ◌++◌, length, take,
  arith, ltb, leb, if◌then◌else◌, ◌∙◌, ap, sym, length-append, length-take,
}
use native.Mathlib.Decide.{dec_le}
use mathlib.Core.List.{flatten, append-nil, append_assoc}

pub record CappedBuffer : Type 0 where
  pub limit : ℕ
  pub buf : List ℕ
  pub overflow : Bool

-- `Write`; the count that it returns is always len(p). `remaining > 0` is the test that the
-- buffer holds less than its limit.
unfoldable pub write : CappedBuffer → List ℕ → CappedBuffer
write c p =
    let remaining = c.limit - length c.buf in
    if ltb 0 remaining
    then (if leb (length p) remaining
        then record c { buf = c.buf ++ p }
        else record c { buf = c.buf ++ take remaining p; overflow = true })
    else (if ltb 0 (length p) then record c { overflow = true } else c)

unfoldable pub new_buffer : ℕ → CappedBuffer
new_buffer limit = record { limit = limit; buf = []; overflow = false }

-- What a process writes, one chunk after another.
unfoldable pub write_all : CappedBuffer → List (List ℕ) → CappedBuffer
unfolding write
write_all c [] = c
write_all c (p ∷ ps) = write_all (write c p) ps

-- The buffer after the bytes `done` were written to it.
record Holds (limit : ℕ) (done : List ℕ) (c : CappedBuffer) : Type 0 where
  cap : c.limit ≡ limit
  kept : c.buf ≡ take limit done
  over : c.overflow ≡ ltb limit (length done)

take-append_of_le :
    (n : ℕ) (xs ys : List ℕ) → length xs ≤ n → take n (xs ++ ys) ≡ xs ++ take (n - length xs) ys
take-append_of_le n [] ys h = ap (λ k. take k ys) (omega arith)
take-append_of_le zero (x ∷ xs) ys h = elim h [ ]
take-append_of_le (suc n) (x ∷ xs) ys h =
    ap (λ t. x ∷ t)
      (take-append_of_le n xs ys (omega arith) ∙ ap (λ k. xs ++ take k ys) (omega arith))

take-append_of_ge : (n : ℕ) (xs ys : List ℕ) → n ≤ length xs → take n (xs ++ ys) ≡ take n xs
take-append_of_ge zero xs ys h = refl
take-append_of_ge (suc n) [] ys h = absurd (omega arith)
take-append_of_ge (suc n) (x ∷ xs) ys h = ap (λ t. x ∷ t) (take-append_of_ge n xs ys (omega arith))

take_nil : (n : ℕ) → take {A = ℕ} n [] ≡ []
take_nil zero = refl
take_nil (suc n) = refl

pub take_all : (n : ℕ) (xs : List ℕ) → length xs ≤ n → take n xs ≡ xs
take_all n [] h = take_nil n
take_all zero (x ∷ xs) h = elim h [ ]
take_all (suc n) (x ∷ xs) h = ap (λ t. x ∷ t) (take_all n xs (omega arith))

take_none : (n : ℕ) (xs : List ℕ) → n ≡ 0 → take n xs ≡ []
take_none zero xs h = refl
take_none (suc n) xs h = absurd (omega arith)

module _ (limit : ℕ) (done p : List ℕ) (c : CappedBuffer) (h : Holds limit done c) where
  -- Before the limit the buffer is what was written.
  write-Holds_below : length done ≤ limit → Holds limit (done ++ p) (write c p)
  unfolding write
  write-Holds_below le = record {
    cap = ground (arith, h.cap);
    kept = ground (
      arith,
      h.kept,
      h.cap,
      take-append_of_le limit done p le,
      take_all limit done le,
      take_all (limit - length done) p,
      take_none (limit - length done) p,
      append-nil done,
    );
    over = ground (arith, h.kept, h.cap, h.over, take_all limit done le, length-append done p);
  }

  -- At the limit it no longer changes.
  write-Holds_above : limit < length done → Holds limit (done ++ p) (write c p)
  unfolding write
  write-Holds_above lt = record {
    cap = ground (arith, h.cap);
    kept = ground (
      arith,
      h.kept,
      h.cap,
      take-append_of_ge limit done p (omega arith),
      length-take limit done,
    );
    over = ground (arith, h.kept, h.cap, h.over, length-take limit done, length-append done p);
  }

write-Holds :
    (limit : ℕ) (done p : List ℕ) (c : CappedBuffer)
    → Holds limit done c
    → Holds limit (done ++ p) (write c p)
write-Holds limit done p c h = elim (dec_le (length done) limit) [
  | yes le ↦ write-Holds_below limit done p c h le
  | no nle ↦ write-Holds_above limit done p c h (omega arith)
]

write_all-Holds :
    (limit : ℕ) (done : List ℕ) (ps : List (List ℕ)) (c : CappedBuffer)
    → Holds limit done c
    → Holds limit (done ++ flatten ps) (write_all c ps)
unfolding write_all flatten
write_all-Holds limit done [] c h = rw append-nil h
write_all-Holds limit done (p ∷ ps) c h =
    rw (← append_assoc done p (flatten ps))
      (write_all-Holds limit (done ++ p) ps (write c p) (write-Holds limit done p c h))

-- However the output of a process is cut into chunks, the buffer keeps its first `limit` bytes,
-- and reports an overflow exactly when there are more.
pub write_all_lem :
    (limit : ℕ) (ps : List (List ℕ))
    → ((write_all (new_buffer limit) ps).buf ≡ take limit (flatten ps))
      × ((write_all (new_buffer limit) ps).overflow ≡ ltb limit (length (flatten ps)))
unfolding new_buffer
write_all_lem limit ps = (done.kept, done.over)
  where
    done : Holds limit (flatten ps) (write_all (new_buffer limit) ps)
    done =
        write_all-Holds limit [] ps (new_buffer limit)
          (record { cap = refl; kept = sym (take_nil limit); over = ground arith })
