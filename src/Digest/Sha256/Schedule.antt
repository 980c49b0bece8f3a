-- ===== src/Digest/Sha256/Schedule.antt =====
-- The two loops over a full block of src/rdx/rdx_guid.cpp.
use Prim.Native.Nat.{bit_and, bit_xor}
use mathlib.Core.List.{append-nil}
use rdx.Base.{
  ℕ, zero, suc, ◌+◌, ◌-◌, ◌<◌, ◌≤◌, ◌≡◌, refl, sym, ap, ◌∙◌, List, [], ◌∷◌, ◌++◌, arith, get_or,
  length, set, u32, length-append,
}
use rdx.Digest.Sha256.{cycle, cycles, extend_seeds, round_constants}
use rdx.Digest.Sha256.Reference.{next_word, schedule, rotations, Working, listed, round, rounds}

pub get_or-append : (xs ys : List ℕ) (i : ℕ) → i < length xs → get_or (xs ++ ys) i 0 ≡ get_or xs i 0
get_or-append [] ys i h = absurd (omega (arith, h))
get_or-append (x ∷ xs) ys zero h = refl
get_or-append (x ∷ xs) ys (suc i) h = get_or-append xs ys i (omega (arith, h))

pub get_or_behind : (xs ys : List ℕ) (y : ℕ) → get_or (xs ++ y ∷ ys) (length xs) 0 ≡ y
get_or_behind [] ys y = refl
get_or_behind (x ∷ xs) ys y = get_or_behind xs ys y

pub set_behind : (xs ys : List ℕ) (y z : ℕ) → set (xs ++ y ∷ ys) (length xs) z ≡ xs ++ z ∷ ys
set_behind [] ys y z = refl
set_behind (x ∷ xs) ys y z = ap (λ zs. x ∷ zs) (set_behind xs ys y z)

pub one_more : (xs ys : List ℕ) (y : ℕ) → xs ++ y ∷ ys ≡ (xs ++ y ∷ []) ++ ys
one_more [] ys y = refl
one_more (x ∷ xs) ys y = ap (λ zs. x ∷ zs) (one_more xs ys y)

pub length_one_more : (xs : List ℕ) (y : ℕ) → length (xs ++ y ∷ []) ≡ length xs + 1
length_one_more xs y = length-append xs (y ∷ [])

-- Extending the seeds writes the words of the schedule over what stood there.
pub extend_seeds-schedule :
    (n : ℕ) (ws behind : List ℕ)
    → 16 ≤ length ws
    → length behind ≡ n
    → extend_seeds n (length ws) (ws ++ behind) ≡ schedule n ws
unfolding extend_seeds schedule next_word
extend_seeds-schedule zero ws [] h l = append-nil ws
extend_seeds-schedule zero ws (b ∷ bs) h l = absurd (omega (arith, l))
extend_seeds-schedule (suc n) ws [] h l = absurd (omega (arith, l))
extend_seeds-schedule (suc n) ws (b ∷ bs) h l =
    let w2 = get_or-append ws (b ∷ bs) (length ws - 2) (omega (arith, h)) in
    let w7 = get_or-append ws (b ∷ bs) (length ws - 7) (omega (arith, h)) in
    let w15 = get_or-append ws (b ∷ bs) (length ws - 15) (omega (arith, h)) in
    let w16 = get_or-append ws (b ∷ bs) (length ws - 16) (omega (arith, h)) in
    let x : ℕ = next_word ws in
    rw (w2, w7, w15, w16)
      (ap (λ v. extend_seeds n (length ws + 1) (set (ws ++ b ∷ bs) (length ws) v)) (omega arith)
        ∙ ap (extend_seeds n (length ws + 1)) (set_behind ws bs b x ∙ one_more ws bs x)
        ∙ ap (λ i. extend_seeds n i ((ws ++ x ∷ []) ++ bs)) (sym (length_one_more ws x))
        ∙ extend_seeds-schedule n (ws ++ x ∷ []) bs (omega (arith, h, length_one_more ws x))
            (omega (arith, l)))

sums : (k w c h s : ℕ) → u32 (k + w + c + h + s) ≡ u32 (h + s + c + k + w)
sums k w c h s = omega arith

sums_first : (t m s : ℕ) → u32 (t + m + s) ≡ u32 (t + (s + m))
sums_first t m s = omega arith

abbrev choice : Working → ℕ
choice s = bit_xor (bit_and s.e s.f) (bit_and (4294967295 - s.e) s.g)

abbrev majority : Working → ℕ
majority s = bit_xor (bit_xor (bit_and s.a s.b) (bit_and s.a s.c)) (bit_and s.b s.c)

cycle-round :
    (s : Working) (w i : ℕ) → cycle (listed s) w i ≡ listed (round (get_or round_constants i 0) w s)
unfolding cycle round
cycle-round s w i =
    let k : ℕ = get_or round_constants i 0 in
    let s1 : ℕ = rotations 6 11 25 s.e in
    let t1 : ℕ = u32 (s.h + s1 + choice s + k + w) in
    ap
      (λ t.
        u32 (t + majority s + rotations 2 13 22 s.a)
        ∷ s.a
        ∷ s.b
        ∷ s.c
        ∷ u32 (s.d + t)
        ∷ s.e
        ∷ s.f
        ∷ s.g
        ∷ [])
      (sums k w (choice s) s.h s1)
    ∙ ap (λ x. x ∷ s.a ∷ s.b ∷ s.c ∷ u32 (s.d + t1) ∷ s.e ∷ s.f ∷ s.g ∷ [])
        (sums_first t1 (majority s) (rotations 2 13 22 s.a))

-- The cycles from one of them on.
pub cycles-rounds :
    (done rest keys key_rest : List ℕ) (s : Working)
    → keys ++ key_rest ≡ round_constants
    → length keys ≡ length done
    → length key_rest ≡ length rest
    → cycles (length rest) (length done) (done ++ rest) (listed s) ≡ listed (rounds key_rest rest s)
unfolding cycles rounds
cycles-rounds done [] keys [] s e h l = refl
cycles-rounds done [] keys (k ∷ ks) s e h l = absurd (omega (arith, l))
cycles-rounds done (w ∷ ws) keys [] s e h l = absurd (omega (arith, l))
cycles-rounds done (w ∷ ws) keys (k ∷ ks) s e h l =
    let word = get_or_behind done ws w in
    let key : get_or round_constants (length done) 0 ≡ k =
      ap (λ xs. get_or xs (length done) 0) (sym e)
      ∙ ap (λ i. get_or (keys ++ k ∷ ks) i 0) (sym h)
      ∙ get_or_behind keys ks k in
    ap
      (λ v.
        cycles (length ws) (length done + 1) (done ++ w ∷ ws) (cycle (listed s) v (length done)))
      word
    ∙ ap (cycles (length ws) (length done + 1) (done ++ w ∷ ws)) (cycle-round s w (length done))
    ∙ ap (λ v. cycles (length ws) (length done + 1) (done ++ w ∷ ws) (listed (round v w s))) key
    ∙ ap (λ v. cycles (length ws) (length done + 1) v (listed (round k w s))) (one_more done ws w)
    ∙ ap (λ i. cycles (length ws) i ((done ++ w ∷ []) ++ ws) (listed (round k w s)))
        (sym (length_one_more done w))
    ∙ cycles-rounds (done ++ w ∷ []) ws (keys ++ k ∷ []) ks (round k w s)
        (sym (one_more keys ks k) ∙ e)
        (omega (arith, h, length_one_more done w, length_one_more keys k)) (omega (arith, l))
