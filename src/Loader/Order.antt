-- ===== src/Loader/Order.antt =====
-- loader/src/main.cpp, `zpp_load_elf`: the order of the launches, and what ends them.
use zpp_hypervisor.Common.{
  ℕ, zero, suc, ◌+◌, ◌≤◌, ◌<◌, ◌≡◌, ◌⊎◌, inl, inr, ◌≢◌, ==_ne, [], Bool, true, false, ◌==◌, not,
  if◌then◌else◌, refl, sym, ap, ◌∙◌, subst, arith, Bool-cases, ==_iff, Option, some, ℤ, pos, negsuc,
}
use zpp_hypervisor.Word.{u64, truthy}
use zpp_hypervisor.ElfFile.Load.{load_lem}
use zpp_hypervisor.ElfFile.{Loaded, unloaded, elf_file, entry, load, tag, tag_null}
use zpp_hypervisor.ElfFile.Dynamic
use zpp_hypervisor.Loader.{Launch, launch, succeeded, launch_from, launch_image, zpp_load_elf}

module _ {S : Type 0} (call_on_cpu : ℕ → Launch → S → ℤ × S) (adjusts : Bool)
    (entry_point : ℕ) where
  -- The result of processor `i`, and the state behind it, from a state.
  abbrev pub outcome : ℕ → S → ℤ × S
  outcome i s = call_on_cpu i (launch call_on_cpu adjusts entry_point i) s

  -- The state after the first `n` processors are called, each once.
  unfoldable pub after : ℕ → S → S
  after zero s = s
  after (suc n) s = (outcome n (after n s)).1

  -- The calls from `i` on, when those before are made.
  launch_from_lem :
      (left i : ℕ) (s : S)
      → (((j : ℕ) → i ≤ j → j < i + left → succeeded call_on_cpu (outcome j (after j s)).0 ≡ true)
          × (launch_from call_on_cpu left i adjusts entry_point (after i s)
              ≡ (pos 0, after (i + left) s)))
        ⊎ ((k : ℕ) × (i ≤ k)
            × (k < i + left)
            × ((j : ℕ) → i ≤ j → j < k → succeeded call_on_cpu (outcome j (after j s)).0 ≡ true)
            × (succeeded call_on_cpu (outcome k (after k s)).0 ≡ false)
            × (launch_from call_on_cpu left i adjusts entry_point (after i s)
                ≡ (negsuc 0, after (suc k) s)))
  unfolding launch_from after
  launch_from_lem zero i s =
      inl (λ j f g. absurd (omega arith), ap (λ x. (pos 0, after x s)) (omega arith))
  launch_from_lem (suc left) i s =
      elim (Bool-cases (succeeded call_on_cpu (outcome i (after i s)).0)) [
        | inr failed ↦
            inr
              (i, omega arith, omega arith, λ j f g. absurd (omega arith), failed, rw (failed) refl)
        | inl done ↦
            (let next : i + 1 ≡ suc i = omega arith in
              let last : suc i + left ≡ i + suc left = omega arith in
              let moved : launch_from call_on_cpu left (i + 1) adjusts entry_point (after (suc i) s)
                  ≡ launch_from call_on_cpu left (suc i) adjusts entry_point (after (suc i) s) =
                ap (λ x. launch_from call_on_cpu left x adjusts entry_point (after (suc i) s))
                  next in
              let so_far : (k : ℕ)
                  → ((j : ℕ)
                      → suc i ≤ j
                      → j < k
                      → succeeded call_on_cpu (outcome j (after j s)).0 ≡ true)
                  → (j : ℕ) → i ≤ j
                  → j < k
                  → succeeded call_on_cpu (outcome j (after j s)).0 ≡ true =
                λ k later j f g. elim (Bool-cases (i == j)) [
                  | inl same ↦
                      subst (λ x. succeeded call_on_cpu (outcome x (after x s)).0 ≡ true)
                        ((==_iff i j).0 same) done
                  | inr other ↦ later j (ground arith) g
                ] in
              elim (launch_from_lem left (suc i) s) [
                | inl (all, e) ↦ inl (
                  so_far (i + suc left) (λ j f g. all j f (omega arith)),
                  rw (done) (moved ∙ e ∙ ap (λ x. (pos 0, after x s)) last),
                )
                | inr (k, low, high, before, failed, e) ↦
                    inr
                      (k, omega arith, omega arith, so_far k before, failed, rw (done) (moved ∙ e))
              ])
      ]

  -- Every processor is called in its turn and succeeds, or the first that fails is the last called.
  pub Launches : ℕ → S → Option (ℤ × S) → Type 0
  Launches cpus s result =
      (((j : ℕ) → j < cpus → succeeded call_on_cpu (outcome j (after j s)).0 ≡ true)
        × (result ≡ some (pos 0, after cpus s)))
      ⊎ ((k : ℕ) × (k < cpus)
          × ((j : ℕ) → j < k → succeeded call_on_cpu (outcome j (after j s)).0 ≡ true)
          × (succeeded call_on_cpu (outcome k (after k s)).0 ≡ false)
          × (result ≡ some (negsuc 0, after (suc k) s)))

  launch_from-Launches :
      (cpus : ℕ) (s : S)
      → Launches cpus s (some (launch_from call_on_cpu cpus 0 adjusts entry_point s))
  unfolding Launches after
  launch_from-Launches cpus s = elim (launch_from_lem cpus 0 s) [
    | inl (all, e) ↦ inl (
      λ j f. all j (omega arith) (omega arith),
      ap some (e ∙ ap (λ x. (pos 0, after x s)) (omega arith)),
    )
    | inr (k, low, high, before, failed, e) ↦
        inr (k, omega arith, λ j f. before j (omega arith) f, failed, ap some e)
  ]

module _ {S : Type 0} (call_on_cpu : ℕ → Launch → S → ℤ × S) (cpus : ℕ) (adjusts : Bool) where
  launch_image-none :
      (l : Loaded) (offset : ℕ) (s : S)
      → (l.base ≡ 0) ⊎ (cpus ≡ 0)
      → launch_image call_on_cpu (some l) offset cpus adjusts s ≡ some (negsuc 0, s)
  unfolding launch_image
  launch_image-none l offset s (inl e) = rw (e) refl
  launch_image-none l offset s (inr e) = rw (e) (if_same (not (truthy l.base)) (some (negsuc 0, s)))
    where
      if_same : (b : Bool) (x : Option (ℤ × S)) → (if b then x else x) ≡ x
      if_same true x = refl
      if_same false x = refl

  launch_image-Launches :
      (l : Loaded) (offset : ℕ) (s : S)
      → l.base ≢ 0
      → cpus ≢ 0
      → Launches call_on_cpu adjusts
          (u64 (l.base + offset))
          cpus
          s
          (launch_image call_on_cpu (some l) offset cpus adjusts s)
  unfolding launch_image
  launch_image-Launches l offset s ne ne' =
      rw (==_ne l.base 0 ne, ==_ne cpus 0 ne')
        (launch_from-Launches call_on_cpu adjusts (u64 (l.base + offset)) cpus s)

-- For an image whose dynamic table has its first null tag within the bound, zpp_load_elf returns -1
-- and calls no processor if nothing is allocated or there is no processor; otherwise it calls the
-- processors in order, each once, from the image's entry point, and returns 0 if all succeed, or -1
-- behind the first that fails, which is the last called.
pub zpp_load_elf_lem :
    {S : Type 0} (call_on_cpu : ℕ → Launch → S → ℤ × S) (fuel n : ℕ) (allocate_rwx file : ℕ → ℕ)
    (elf_binary : ℕ) (memory : ℕ → ℕ) (cpus : ℕ) (adjusts : Bool) (s : S)
    → ((i : ℕ)
        → i < n
        → (tag (Dynamic.entry (elf_file file elf_binary unloaded).dynamic file i) == tag_null)
          ≡ false)
    → (tag (Dynamic.entry (elf_file file elf_binary unloaded).dynamic file n) == tag_null) ≡ true
    → n < fuel
    → (let elf = elf_file file elf_binary unloaded in
        let base = allocate_rwx elf.memory_size in
        let result =
          zpp_load_elf call_on_cpu fuel allocate_rwx file elf_binary memory cpus adjusts s in
        ((base ≡ 0) ⊎ (cpus ≡ 0) → result ≡ some (negsuc 0, s))
        × (base ≢ 0
            → cpus ≢ 0
            → Launches call_on_cpu adjusts (u64 (base + entry file elf)) cpus s result))
unfolding zpp_load_elf
zpp_load_elf_lem {S = S} call_on_cpu fuel n allocate_rwx file elf_binary memory cpus adjusts s
      before end enough =
    let elf = elf_file file elf_binary unloaded in
    let base = allocate_rwx elf.memory_size in
    let point = entry file elf in
    let (null, image) = load_lem fuel allocate_rwx file elf memory n before end enough in
    let go : Option Loaded → Option (ℤ × S) =
      λ o. launch_image call_on_cpu o point cpus adjusts s in
    let none_called : (base ≡ 0) ⊎ (cpus ≡ 0)
        → go (load fuel allocate_rwx file elf memory) ≡ some (negsuc 0, s) =
      λ c. elim (Bool-cases (base == 0)) [
        | inl e ↦
            ap go (null ((==_iff base 0).0 e))
            ∙ launch_image-none call_on_cpu cpus adjusts
                (record { base = 0; memory = memory; protections = [] }) point s (inl refl)
        | inr e ↦
            (let (l, loaded, at) = image (apart base e) in
              ap go loaded
              ∙ launch_image-none call_on_cpu cpus adjusts l point s
                  (elim c [ inl z ↦ inl (at ∙ z) | inr z ↦ inr z ]))
      ] in
    (
      none_called,
      λ ne ne'.
          let (l, loaded, at) = image ne in
          subst (Launches call_on_cpu adjusts (u64 (base + point)) cpus s) (ap go (sym loaded)) (
            subst (λ x. Launches call_on_cpu adjusts (u64 (x + point)) cpus s (go (some l))) at
              (launch_image-Launches call_on_cpu cpus adjusts l point s (λ e. ne (sym at ∙ e))
                ne')),
    )
  where
    apart : (x : ℕ) → (x == 0) ≡ false → x ≢ 0
    apart x e z = ground (arith, e, z)
