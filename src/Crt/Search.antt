-- ===== src/Crt/Search.antt =====
-- hypervisor/src/crt/crt.cpp: the results of the loops of `memcmp` and `strlen`.
use zpp_hypervisor.Common.{
  ℕ, zero, suc, ◌+◌, ◌≤◌, ◌<◌, ◌≡◌, ◌≢◌, ◌⊎◌, inl, inr, false, ◌==◌, refl, sym, ap, ◌∙◌, subst,
  arith, Bool-cases, ==_iff, ==_ne, some, ℤ, pos,
}
use zpp_hypervisor.Crt.{compare_bytes, memcmp, difference, strlen_from, strlen}

-- From index `i` on the bytes agree, or the first that differ decide.
data Compared (dest src i n : ℕ) (memory : ℕ → ℕ) (result : ℤ) : Type 0 where
  equal :
      ((j : ℕ) → i ≤ j → j < i + n → memory (dest + j) ≡ memory (src + j))
      → result ≡ pos 0
      → Compared dest src i n memory result
  differs :
      (j : ℕ)
      → i ≤ j
      → j < i + n
      → ((l : ℕ) → i ≤ l → l < j → memory (dest + l) ≡ memory (src + l))
      → memory (dest + j) ≢ memory (src + j)
      → result ≡ difference (memory (dest + j)) (memory (src + j))
      → Compared dest src i n memory result

Compared-suc :
    (dest src i n : ℕ) (memory : ℕ → ℕ) (result : ℤ)
    → memory (dest + i) ≡ memory (src + i)
    → Compared dest src (i + 1) n memory result
    → Compared dest src i (suc n) memory result
Compared-suc dest src i n memory result e (equal all r) =
    equal
      (λ j f g. elim (Bool-cases (i == j)) [
        | inl first ↦ subst (λ x. memory (dest + x) ≡ memory (src + x)) ((==_iff i j).0 first) e
        | inr later ↦ all j (ground arith) (omega arith)
      ])
      r
Compared-suc dest src i n memory result e (differs j low high before apart r) =
    differs j (omega arith) (omega arith)
      (λ l f g. elim (Bool-cases (i == l)) [
        | inl first ↦ subst (λ x. memory (dest + x) ≡ memory (src + x)) ((==_iff i l).0 first) e
        | inr later ↦ before l (ground arith) g
      ])
      apart r

compare_bytes-Compared :
    (n i dest src : ℕ) (memory : ℕ → ℕ)
    → Compared dest src i n memory (compare_bytes n i dest src memory)
unfolding compare_bytes
compare_bytes-Compared zero i dest src memory = equal (λ j f g. absurd (omega arith)) refl
compare_bytes-Compared (suc n) i dest src memory =
    elim (Bool-cases (memory (dest + i) == memory (src + i))) [
      | inl same ↦ rw (same) (
          Compared-suc dest src i n memory (compare_bytes n (i + 1) dest src memory)
            ((==_iff (memory (dest + i)) (memory (src + i))).0 same)
            (compare_bytes-Compared n (i + 1) dest src memory))
      | inr other ↦ rw (other) (
          differs i (omega arith) (omega arith) (λ l f g. absurd (omega arith))
            (λ e. ground (arith, e, other)) refl)
    ]

pub memcmp_lem :
    (dest src count : ℕ) (memory : ℕ → ℕ)
    → (((j : ℕ) → j < count → memory (dest + j) ≡ memory (src + j))
        × (memcmp dest src count memory ≡ pos 0))
      ⊎ ((j : ℕ) × (j < count)
          × ((l : ℕ) → l < j → memory (dest + l) ≡ memory (src + l))
          × (memory (dest + j) ≢ memory (src + j))
          × (memcmp dest src count memory ≡ difference (memory (dest + j)) (memory (src + j))))
unfolding memcmp
memcmp_lem dest src count memory = elim (compare_bytes-Compared count 0 dest src memory) [
  | equal all r ↦ inl (λ j f. all j (omega arith) (omega arith), r)
  | differs j low high before apart r ↦
      inr (j, omega arith, λ l f. before l (omega arith) f, apart, r)
]

strlen_from_lem :
    (n fuel i string : ℕ) (memory : ℕ → ℕ)
    → ((j : ℕ) → i ≤ j → j < i + n → memory (string + j) ≢ 0)
    → memory (string + (i + n)) ≡ 0
    → n < fuel
    → strlen_from fuel i string memory ≡ some (i + n)
unfolding strlen_from
strlen_from_lem n zero i string memory before end enough = absurd (omega arith)
strlen_from_lem zero (suc fuel) i string memory before end enough =
    let here : memory (string + i) ≡ 0 = subst (λ x. memory (string + x) ≡ 0) (omega arith) end in
    rw (here) (ap some (omega arith))
strlen_from_lem (suc n) (suc fuel) i string memory before end enough =
    let apart : (memory (string + i) == 0) ≡ false =
      ==_ne (memory (string + i)) 0 (before i (omega arith) (omega arith)) in
    let shifted : i + 1 + n ≡ i + suc n = omega arith in
    rw (apart) (
      strlen_from_lem n fuel (i + 1) string memory (λ j f g. before j (omega arith) (omega arith))
        (subst (λ x. memory (string + x) ≡ 0) (sym shifted) end) (omega arith)
      ∙ ap some shifted)

pub strlen_lem :
    (n fuel string : ℕ) (memory : ℕ → ℕ)
    → ((j : ℕ) → j < n → memory (string + j) ≢ 0)
    → memory (string + n) ≡ 0
    → n < fuel
    → strlen fuel string memory ≡ some n
unfolding strlen
strlen_lem n fuel string memory before end enough =
    strlen_from_lem n fuel 0 string memory (λ j f g. before j (omega arith))
      (subst (λ x. memory (string + x) ≡ 0) (omega arith) end) enough
    ∙ ap some (omega arith)
