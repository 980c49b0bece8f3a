-- ===== src/Text/Candidate/Spelled.antt =====
-- What the loops over a candidate string make of the characters it spells:
-- src/rdx/rdx_objectmanager.cpp.
use rdx.Base.{
  ℕ, zero, suc, ◌<◌, ◌≤◌, ◌≡◌, refl, ap, inl, inr, Bool, true, false, List, [], ◌∷◌, ◌++◌, map,
  arith, ◌==◌, if◌then◌else◌, length, Bytes, Bool-cases,
}
use rdx.Base.Run.{ok, ◌>>=◌}
use rdx.Text.Count.{CandidateString, invalid}
use rdx.Digest.Buffer.{Hash, feed_all}
use rdx.Digest.Murmur3.{mix32, flush32, feed_bytes32}
use rdx.Text.Candidate.{Cursor, decode_character, hash_loop, compare_loop, construct_loop}

-- From a cursor on, a candidate decodes to characters, none of which is `rdxCHAR_Invalid`.
abbrev pub Spells : ℕ → CandidateString → Cursor → List ℕ → Type 0
Spells bits s cur [] = (cur.available == 0) ≡ true
Spells bits s cur (c ∷ cs) =
    ((cur.available == 0) ≡ false)
    × ((c == invalid bits) ≡ false)
    × (cur' : Cursor) × (decode_character bits s cur ≡ ok (c, cur'))
    × Spells bits s cur' cs

pub hash_loop-Spells :
    (bits : ℕ) (char_bytes : ℕ → Bytes) (fuel : ℕ) (s : CandidateString) (cur : Cursor)
    (hv : Hash ℕ) (cs : List ℕ)
    → length cs < fuel
    → Spells bits s cur cs
    → hash_loop bits char_bytes fuel s cur hv
      ≡ ok (flush32 (feed_all 4 mix32 (map char_bytes cs) hv))
unfolding hash_loop feed_all
hash_loop-Spells bits char_bytes zero s cur hv cs h sp = absurd (omega (arith, h))
hash_loop-Spells bits char_bytes (suc fuel) s cur hv [] h sp = rw sp refl
hash_loop-Spells bits char_bytes (suc fuel) s cur hv (c ∷ cs) h (more, valid, cur', d, sp) =
    rw (more, d, valid)
      (hash_loop-Spells bits char_bytes fuel s cur' (feed_bytes32 (char_bytes c) hv) cs
        (omega (arith, h)) sp)

-- whether two keys are equal
abbrev pub same_chars : List ℕ → List ℕ → Bool
same_chars [] [] = true
same_chars [] (c ∷ cs) = false
same_chars (k ∷ ks) [] = false
same_chars (k ∷ ks) (c ∷ cs) = let rest = same_chars ks cs in if k == c then rest else false

pub compare_loop-Spells :
    (bits fuel : ℕ) (s : CandidateString) (cur : Cursor) (key behind cs : List ℕ)
    → length cs < fuel
    → length key ≡ length cs
    → Spells bits s cur cs
    → compare_loop bits (key ++ behind) fuel s cur ≡ ok (same_chars key cs)
unfolding compare_loop
compare_loop-Spells bits zero s cur key behind cs h l sp = absurd (omega (arith, h))
compare_loop-Spells bits (suc fuel) s cur [] [] [] h l sp = rw sp refl
compare_loop-Spells bits (suc fuel) s cur [] (b ∷ bs) [] h l sp = rw sp refl
compare_loop-Spells bits (suc fuel) s cur [] behind (c ∷ cs) h l sp = absurd (omega (arith, l))
compare_loop-Spells bits (suc fuel) s cur (k ∷ ks) behind [] h l sp = absurd (omega (arith, l))
compare_loop-Spells bits (suc fuel) s cur (k ∷ ks) behind (c ∷ cs) h l (more, valid, cur', d, sp) =
    elim (Bool-cases (k == c)) [
      | inl same ↦
          rw (more, d, valid, same)
            (compare_loop-Spells bits fuel s cur' ks behind cs (omega (arith, h)) (omega (arith, l))
              sp)
      | inr other ↦ rw (more, d, valid, other) refl
    ]

pub construct_loop-Spells :
    (bits room : ℕ) (s : CandidateString) (cur : Cursor) (cs : List ℕ)
    → length cs ≤ room
    → Spells bits s cur cs
    → construct_loop bits room s cur ≡ ok cs
unfolding construct_loop
construct_loop-Spells bits zero s cur [] h sp = rw sp refl
construct_loop-Spells bits (suc room) s cur [] h sp = rw sp refl
construct_loop-Spells bits zero s cur (c ∷ cs) h sp = absurd (omega (arith, h))
construct_loop-Spells bits (suc room) s cur (c ∷ cs) h (more, valid, cur', d, sp) =
    rw (more, d)
      (ap (λ m. m >>= λ ds. ok (c ∷ ds))
        (construct_loop-Spells bits room s cur' cs (omega (arith, h)) sp))
