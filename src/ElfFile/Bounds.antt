-- ===== src/ElfFile/Bounds.antt =====
-- hypervisor/include/zpp/elf_file.h: the loadable segments and the size that `elf_file` computes
-- from their headers.
use zpp_hypervisor.Common.{
  ℕ, zero, suc, ◌+◌, ◌*◌, ◌/◌, ◌^◌, ◌≤◌, ◌<◌, ◌≡◌, true, false, ◌==◌, refl, sym, ap, ◌∙◌, subst,
  arith, Bool-cases, inl, inr, ==_iff,
}
use mathlib.Core.Bool.{true≢false}
use zpp_hypervisor.Word.{u64, sub64, ◌&&&◌, ~◌}
use zpp_hypervisor.Word.Fields.{bit_and_page}
use zpp_hypervisor.ElfFile.Structures.{ElfPhdr, read_phdr, read_header, phdr_size}
use zpp_hypervisor.ElfFile.{ElfFile, State, elf_file, find_phdr, find_last_phdr, type_load}
use zpp_hypervisor.ElfFile.Segment.{start}
use zpp_hypervisor.ElfFile.Segments.{phdr, IsLoad}

module _ (first : ℕ) (file : ℕ → ℕ) where
  abbrev at : ℕ → ElfPhdr
  at i = read_phdr (first + phdr_size * i) file

  -- The first loadable header from `i` on, and the last one below `n`.
  record Foremost (i k place : ℕ) : Type 0 where
    index : ℕ
    load : IsLoad (at index)
    least : index ≤ k
    position : place ≡ first + phdr_size * index

  record Hindmost (n k place : ℕ) : Type 0 where
    index : ℕ
    below : index < n
    load : IsLoad (at index)
    greatest : k ≤ index
    position : place ≡ first + phdr_size * index

  pub other_header :
      (i k : ℕ) → ((at i).p_type == type_load) ≡ false → IsLoad (at k) → (i == k) ≡ false
  other_header i k other load = elim (Bool-cases (i == k)) [
    | inl same ↦ absurd (
        true≢false (
          sym (subst (λ x. ((at x).p_type == type_load) ≡ true) (sym ((==_iff i k).0 same)) load)
          ∙ other))
    | inr apart ↦ apart
  ]

  find_phdr-Foremost :
      (left i k : ℕ)
      → i ≤ k
      → k < i + left
      → IsLoad (at k)
      → Foremost i k (find_phdr left type_load (first + phdr_size * i) file)
  unfolding find_phdr
  find_phdr-Foremost zero i k low high load = absurd (omega arith)
  find_phdr-Foremost (suc left) i k low high load = elim (Bool-cases ((at i).p_type == type_load)) [
    | inl found ↦ rw (found) record { index = i; load = found; least = low; position = refl }
    | inr other ↦ rw (other) (
        let next : first + phdr_size * (i + 1) ≡ first + phdr_size * i + phdr_size = omega arith in
        let apart = other_header i k other load in
        let later : i + 1 ≤ k = ground arith in
        let r = find_phdr-Foremost left (i + 1) k later (omega arith) load in
        subst (λ x. Foremost i k (find_phdr left type_load x file)) next
          (record { index = r.index; load = r.load; least = r.least; position = r.position }))
  ]

  find_last_phdr-Hindmost :
      (n k : ℕ) → k < n → IsLoad (at k) → Hindmost n k (find_last_phdr n type_load first file)
  unfolding find_last_phdr
  find_last_phdr-Hindmost zero k high load = absurd (omega arith)
  find_last_phdr-Hindmost (suc n) k high load = elim (Bool-cases ((at n).p_type == type_load)) [
    | inl found ↦ rw (found) record {
      index = n;
      below = omega arith;
      load = found;
      greatest = omega arith;
      position = refl;
    }
    | inr other ↦ rw (other) (
        let r = find_last_phdr-Hindmost n k (ground (arith, other_header n k other load)) load in
        record {
          index = r.index;
          below = omega (arith, r.below);
          load = r.load;
          greatest = r.greatest;
          position = r.position;
        })
  ]

bounds_lem :
    (base low v m e preferred : ℕ)
    → preferred ≡ low / 2 ^ 12 * 2 ^ 12
    → low ≤ v
    → v + m ≤ e
    → e + 0xfff < 2 ^ 64
    → base + sub64 ((e + 0xfff) / 2 ^ 12 * 2 ^ 12) preferred < 2 ^ 64
    → (base ≤ u64 (sub64 base preferred + v))
      × (u64 (sub64 base preferred + v) + m
          ≤ base + sub64 ((e + 0xfff) / 2 ^ 12 * 2 ^ 12) preferred)
bounds_lem base low v m e preferred page above below fits room = (omega arith, omega arith)

-- The loadable segments are in the order of their addresses and do not overlap.
unfoldable pub Ordered : ElfFile → (ℕ → ℕ) → ℕ → Type 0
Ordered elf file count =
    (i j : ℕ)
    → i < j
    → j < count
    → IsLoad (phdr elf file i)
    → IsLoad (phdr elf file j)
    → (phdr elf file i).p_vaddr + (phdr elf file i).p_memsz ≤ (phdr elf file j).p_vaddr

Ordered-ends :
    (elf : ElfFile) (file : ℕ → ℕ) (count i j : ℕ)
    → Ordered elf file count
    → i ≤ j
    → j < count
    → IsLoad (phdr elf file i)
    → IsLoad (phdr elf file j)
    → ((phdr elf file i).p_vaddr ≤ (phdr elf file j).p_vaddr)
      × ((phdr elf file i).p_vaddr + (phdr elf file i).p_memsz
          ≤ (phdr elf file j).p_vaddr + (phdr elf file j).p_memsz)
unfolding Ordered
Ordered-ends elf file count i j ordered f g li lj = elim (Bool-cases (i == j)) [
  | inl same ↦
      subst
        (λ x.
          ((phdr elf file i).p_vaddr ≤ (phdr elf file x).p_vaddr)
          × ((phdr elf file i).p_vaddr + (phdr elf file i).p_memsz
              ≤ (phdr elf file x).p_vaddr + (phdr elf file x).p_memsz))
        ((==_iff i j).0 same) (omega arith, omega arith)
  | inr other ↦
      (let order = ordered i j (ground arith) g li lj in
        (omega (arith, order), omega (arith, order)))
]

-- For loadable segments in the order of their addresses, more than a page below 2^64, each stands,
-- at the base difference, inside memory_size bytes from the base of the image, given that these end
-- below 2^64.
pub start-elf_file :
    (file : ℕ → ℕ) (file_data : ℕ) (state : State) (base k : ℕ)
    → k < (read_header file_data file).e_phnum
    → IsLoad (phdr (elf_file file file_data state) file k)
    → Ordered (elf_file file file_data state) file (read_header file_data file).e_phnum
    → ((j : ℕ)
        → j < (read_header file_data file).e_phnum
        → IsLoad (phdr (elf_file file file_data state) file j)
        → (phdr (elf_file file file_data state) file j).p_vaddr
            + (phdr (elf_file file file_data state) file j).p_memsz
            + 0xfff
          < 2 ^ 64)
    → base + (elf_file file file_data state).memory_size < 2 ^ 64
    → (let elf = elf_file file file_data state in
        let s = start (sub64 base elf.preferred_base) (phdr elf file k) in
        (base ≤ s) × (s + (phdr elf file k).p_memsz ≤ base + elf.memory_size))
unfolding elf_file
start-elf_file file file_data state base k below load ordered fits room =
    let elf = elf_file file file_data state in
    let count = (read_header file_data file).e_phnum in
    let first = elf.program_headers in
    let f = find_phdr-Foremost first file count 0 k (omega arith) (omega arith) load in
    let l = find_last_phdr-Hindmost first file count k below load in
    let low = (phdr elf file f.index).p_vaddr in
    let above = Ordered-ends elf file count f.index k ordered f.least below f.load load in
    let under = Ordered-ends elf file count k l.index ordered l.greatest l.below load l.load in
    let e = (phdr elf file l.index).p_vaddr + (phdr elf file l.index).p_memsz in
    let zero_index : first + phdr_size * 0 ≡ first = omega arith in
    let found : find_phdr count type_load first file ≡ first + phdr_size * f.index =
      ap (λ x. find_phdr count type_load x file) (sym zero_index) ∙ f.position in
    let low_fits = fits f.index (omega (arith, f.least, below)) f.load in
    let end_fits = fits l.index l.below l.load in
    let page : elf.preferred_base ≡ low / 2 ^ 12 * 2 ^ 12 =
      ap (λ x. (read_phdr x file).p_vaddr &&& ~ 0xfff) found
      ∙ bit_and_page low (omega (arith, low_fits)) in
    let whole : u64 (e + 0xfff) ≡ e + 0xfff = omega (arith, end_fits) in
    let size : elf.memory_size ≡ sub64 ((e + 0xfff) / 2 ^ 12 * 2 ^ 12) elf.preferred_base =
      ap
        (λ x.
          sub64 (u64 ((read_phdr x file).p_vaddr + (read_phdr x file).p_memsz + 0xfff) &&& ~ 0xfff)
            elf.preferred_base)
        l.position
      ∙ ap (λ x. sub64 (x &&& ~ 0xfff) elf.preferred_base) whole
      ∙ ap (λ x. sub64 x elf.preferred_base) (bit_and_page (e + 0xfff) (omega (arith, end_fits))) in
    let (at_least, at_most) =
      bounds_lem base low (phdr elf file k).p_vaddr (phdr elf file k).p_memsz e elf.preferred_base
        page above.0 under.1 end_fits (subst (λ x. base + x < 2 ^ 64) size room) in
    (
      at_least,
      subst
          (λ x.
            start (sub64 base elf.preferred_base) (phdr elf file k) + (phdr elf file k).p_memsz
            ≤ base + x)
          (sym size) at_most,
    )
