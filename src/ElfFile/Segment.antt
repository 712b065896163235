-- ===== src/ElfFile/Segment.antt =====
-- hypervisor/include/zpp/elf_file.h: the memory behind the copy and the fill of one loadable
-- segment.
use zpp_hypervisor.Common.{
  ℕ, zero, suc, ◌+◌, ◌-◌, ◌^◌, ◌≤◌, ◌<◌, ◌≡◌, ◌==◌, if◌then◌else◌, ltb, update, ap, ◌∙◌, subst,
  arith, Bool-cases, inl, inr, ==_iff,
}
use zpp_hypervisor.Word.{u64, sub64}
use zpp_hypervisor.Crt.{set}
use zpp_hypervisor.Crt.Move.{within, set_lem}
use zpp_hypervisor.ElfFile.Structures.{ElfPhdr}
use zpp_hypervisor.ElfFile.{copy_n, map_segment}

copy_n_lem :
    (left i dest src : ℕ) (file memory : ℕ → ℕ) (a : ℕ)
    → copy_n left i dest src file memory a
      ≡ (if within (dest + i) left a then file (src + (a - dest)) else memory a)
unfolding copy_n within
copy_n_lem zero i dest src file memory a = ground arith
copy_n_lem (suc left) i dest src file memory a =
    copy_n_lem left (i + 1) dest src file (update memory (dest + i) (file (src + i))) a
    ∙ elim (Bool-cases (dest + i == a)) [
      | inl first ↦
          (let at : dest + i ≡ a = (==_iff (dest + i) a).0 first in
            let from : src + i ≡ src + (a - dest) = omega (arith, at) in
            subst
              (λ x.
                (if within (dest + (i + 1)) left a
                  then file (src + (a - dest))
                  else update memory (dest + i) (file (src + i)) a)
                ≡ (if within (dest + i) (suc left) a then file x else memory a))
              from (ground arith))
      | inr other ↦ ground arith
    ]

-- The start of a segment in memory.
abbrev pub start : ℕ → ElfPhdr → ℕ
start base_difference p = u64 (base_difference + p.p_vaddr)

-- The segment's bytes come from the file and are as many as it has room for, and neither goes past the
-- end of memory.
pub record Fits (file_data base_difference : ℕ) (p : ElfPhdr) : Type 0 where
  pub filesz : p.p_filesz ≤ p.p_memsz
  pub memory : start base_difference p + p.p_memsz < 2 ^ 64
  pub file : u64 (file_data + p.p_offset) ≡ file_data + p.p_offset

-- The byte of a loaded segment at an address.
unfoldable pub loaded_byte : ℕ → ℕ → ElfPhdr → (ℕ → ℕ) → ℕ → ℕ
loaded_byte file_data base_difference p file a =
    if ltb (a - start base_difference p) p.p_filesz
    then file (file_data + p.p_offset + (a - start base_difference p))
    else 0

parts_lem :
    (s n m a x y : ℕ)
    → n ≤ m
    → (if within (s + n + 0) (m - n) a then 0 else (if within (s + 0) n a then x else y))
      ≡ (if within s m a then (if ltb (a - s) n then x else 0) else y)
unfolding within
parts_lem s n m a x y order = ground arith

pub map_segment_lem :
    (file_data base_difference : ℕ) (p : ElfPhdr) (file memory : ℕ → ℕ) (a : ℕ)
    → Fits file_data base_difference p
    → map_segment file_data base_difference p file memory a ≡ (
        if within (start base_difference p) p.p_memsz a
        then loaded_byte file_data base_difference p file a
        else memory a)
unfolding map_segment within loaded_byte
map_segment_lem file_data base_difference p file memory a fits =
    let s = start base_difference p in
    let n = p.p_filesz in
    let bound = fits.memory in
    let order = fits.filesz in
    let next : u64 (base_difference + p.p_vaddr + n) ≡ s + n = omega (arith, bound, order) in
    let left : sub64 p.p_memsz n ≡ p.p_memsz - n = omega (arith, bound, order) in
    let copied = copy_n n 0 s (u64 (file_data + p.p_offset)) file memory in
    ap (λ x. set x 0 (u64 (base_difference + p.p_vaddr + n)) 0 copied a) left
    ∙ ap (λ x. set (p.p_memsz - n) 0 x 0 copied a) next
    ∙ set_lem (p.p_memsz - n) 0 (s + n) 0 copied a
    ∙ ap (λ x. if within (s + n + 0) (p.p_memsz - n) a then 0 else x)
        (copy_n_lem n 0 s (u64 (file_data + p.p_offset)) file memory a)
    ∙ ap
        (λ x.
          if within (s + n + 0) (p.p_memsz - n) a
          then 0
          else (if within (s + 0) n a then file (x + (a - s)) else memory a))
        fits.file
    ∙ parts_lem s n p.p_memsz a (file (file_data + p.p_offset + (a - s))) (memory a) order
