-- ===== src/Crt/Move.antt =====
-- hypervisor/src/crt/crt.cpp: the memory behind the loops of `memcpy`, `memmove` and `memset`.
use zpp_hypervisor.Common.{
  ℕ, zero, suc, ◌+◌, ◌-◌, ◌%◌, ◌≤◌, ◌<◌, ◌≡◌, Bool, ◌&&◌, true, false, ◌==◌, if◌then◌else◌, leb,
  ltb, update, refl, subst, ==_iff, sym, ap, ◌∙◌, arith, ◌⊎◌, inl, inr, Bool-cases, ltb→lt,
}
use native.Mathlib.Nat.{mod-eq_of_lt, mod-eq-sub-mod}
use zpp_hypervisor.Crt.{copy, set, memmove, memset}

-- The address is one of `count` from `dest` on.
unfoldable pub within : ℕ → ℕ → ℕ → Bool
within dest count a = leb dest a && ltb a (dest + count)

copy_round :
    (left i dest src : ℕ) (memory : ℕ → ℕ) (a : ℕ)
    → (dest ≤ src) ⊎ (src + i + suc left ≤ dest)
    → (if within (dest + (i + 1)) left a
        then update memory (dest + i) (memory (src + i)) (src + (a - dest))
        else update memory (dest + i) (memory (src + i)) a)
      ≡ (if within (dest + i) (suc left) a then memory (src + (a - dest)) else memory a)
unfolding within
copy_round left i dest src memory a apart = elim (Bool-cases (dest + i == a)) [
  | inl first ↦
      let at : dest + i ≡ a = (==_iff (dest + i) a).0 first in
      let from : src + i ≡ src + (a - dest) = omega (arith, at) in
      subst
        (λ x.
          (if within (dest + (i + 1)) left a
            then update memory (dest + i) (memory (src + i)) (src + (a - dest))
            else update memory (dest + i) (memory (src + i)) a)
          ≡ (if within (dest + i) (suc left) a then memory x else memory a))
        from (ground arith)
  | inr other ↦ ground arith
]

pub copy_lem :
    (left i dest src : ℕ) (memory : ℕ → ℕ) (a : ℕ)
    → (dest ≤ src) ⊎ (src + i + left ≤ dest)
    → copy left i dest src memory a
      ≡ (if within (dest + i) left a then memory (src + (a - dest)) else memory a)
unfolding copy within
copy_lem zero i dest src memory a apart = ground arith
copy_lem (suc left) i dest src memory a apart =
    let apart' : (dest ≤ src) ⊎ (src + (i + 1) + left ≤ dest) = elim apart [
      | inl f ↦ inl f
      | inr f ↦ inr (omega arith)
    ] in
    let memory' = update memory (dest + i) (memory (src + i)) in
    let next = copy_lem left (i + 1) dest src memory' a apart' in
    next ∙ copy_round left i dest src memory a apart

-- Memory after `i` rounds of a copy to `k` bytes above its source.
record Repeats (dest src k i : ℕ) (start memory : ℕ → ℕ) : Type 0 where
  copied : (j : ℕ) → j < i → memory (dest + j) ≡ start (src + j % k)
  kept : (a : ℕ) → within dest i a ≡ false → memory a ≡ start a

Repeats-round :
    (dest src k i : ℕ) (start memory : ℕ → ℕ)
    → dest ≡ src + k
    → 0 < k
    → Repeats dest src k i start memory
    → Repeats dest src k (i + 1) start (update memory (dest + i) (memory (src + i)))
unfolding within
Repeats-round dest src k i start memory above positive r = record {
  copied = λ j f. elim (Bool-cases (dest + i == dest + j)) [
    | inl last ↦ rw (last) (ap (λ x. memory (src + x)) (same j last) ∙ value j (same j last))
    | inr before ↦ rw (before) (r.copied j (ground arith))
  ];
  kept = λ a e. elim (Bool-cases (dest + i == a)) [
    | inl last ↦ absurd (ground arith)
    | inr before ↦ rw (before) (r.kept a (ground arith))
  ];
}
  where
    same : (j : ℕ) → (dest + i == dest + j) ≡ true → i ≡ j
    same j e = ground arith

    value : (j : ℕ) → i ≡ j → memory (src + j) ≡ start (src + j % k)
    value j e = elim (Bool-cases (ltb j k)) [
      | inl low ↦
          r.kept (src + j) (ground arith)
          ∙ ap (λ x. start (src + x)) (sym (mod-eq_of_lt (ltb→lt j k low)))
      | inr high ↦
          (let at : src + j ≡ dest + (j - k) = ground arith in
            ap memory at
            ∙ r.copied (j - k) (ground arith)
            ∙ ap (λ x. start (src + x)) (sym (mod-eq-sub-mod (ground arith))))
    ]

copy-Repeats :
    (left dest src k i : ℕ) (start memory : ℕ → ℕ)
    → dest ≡ src + k
    → 0 < k
    → Repeats dest src k i start memory
    → Repeats dest src k (i + left) start (copy left i dest src memory)
unfolding copy
copy-Repeats zero dest src k i start memory above positive r =
    subst (λ x. Repeats dest src k x start memory) (omega arith) r
copy-Repeats (suc left) dest src k i start memory above positive r =
    subst (λ x. Repeats dest src k x start (copy (suc left) i dest src memory)) (omega arith)
      (copy-Repeats left dest src k (i + 1) start (update memory (dest + i) (memory (src + i)))
        above positive (Repeats-round dest src k i start memory above positive r))

-- memmove moves the bytes where the destination is not above the source or behind its end, and
-- changes nothing else; where the destination is above the source by d bytes, byte j of it gets
-- byte j mod d of the source.
pub memmove_lem :
    (dest src count : ℕ) (memory : ℕ → ℕ)
    → ((dest ≤ src) ⊎ (src + count ≤ dest)
        → (a : ℕ)
        → (memmove dest src count memory).1 a
          ≡ (if within dest count a then memory (src + (a - dest)) else memory a))
      × (src < dest
          → ((j : ℕ)
              → j < count
              → (memmove dest src count memory).1 (dest + j) ≡ memory (src + j % (dest - src)))
            × ((a : ℕ)
                → within dest count a ≡ false
                → (memmove dest src count memory).1 a ≡ memory a))
unfolding memmove within
memmove_lem dest src count memory = (
  λ apart a.
      copy_lem count 0 dest src memory a (elim apart [ inl f ↦ inl f | inr f ↦ inr (omega arith) ])
      ∙ ap (λ d. if within d count a then memory (src + (a - dest)) else memory a) (omega arith),
  λ above.
      let r =
        copy-Repeats count dest src (dest - src) 0 memory memory (omega arith) (omega arith)
          (record { copied = λ j f. absurd (omega arith); kept = λ a e. refl }) in
      (
        λ j f. r.copied j (omega arith),
        λ a e. r.kept a (subst (λ n. within dest n a ≡ false) (omega arith) e),
      ),
)

pub set_lem :
    (left i dest value : ℕ) (memory : ℕ → ℕ) (a : ℕ)
    → set left i dest value memory a ≡ (if within (dest + i) left a then value % 256 else memory a)
unfolding set within
set_lem zero i dest value memory a = ground arith
set_lem (suc left) i dest value memory a =
    set_lem left (i + 1) dest value (update memory (dest + i) (value % 256)) a ∙ ground arith

pub memset_lem :
    (dest value count : ℕ) (memory : ℕ → ℕ) (a : ℕ)
    → (memset dest value count memory).1 a ≡ (if within dest count a then value % 256 else memory a)
unfolding memset
memset_lem dest value count memory a =
    set_lem count 0 dest value memory a
    ∙ ap (λ d. if within d count a then value % 256 else memory a) (omega arith)
