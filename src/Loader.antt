-- ===== src/Loader.antt =====
-- loader/src/main.cpp: `zpp_load_elf` loads the hypervisor's image and launches it on each processor.
-- The functions that it is given are parameters; `S` is the state that `call_on_cpu` changes.
pub mod Order
use zpp_hypervisor.Common.{
  ℕ, zero, suc, ◌+◌, Bool, false, ◌==◌, not, if◌then◌else◌, Option, some, none, ℤ, pos, negsuc,
}
use zpp_hypervisor.Word.{u64, truthy}
use zpp_hypervisor.ElfFile.{State, unloaded, Loaded, elf_file, entry, load}

-- What a processor is called with: the entry point itself, or the function that adjusts the calling
-- convention, with the entry point and the number of the processor.
pub data Launch : Type 0 where
  direct adjusted : ℕ → ℕ → Launch

module _ {S : Type 0} (call_on_cpu : ℕ → Launch → S → ℤ × S) where
  abbrev pub launch : Bool → ℕ → ℕ → Launch
  launch adjusts entry_point i = if adjusts then adjusted entry_point i else direct entry_point i

  abbrev pub succeeded : ℤ → Bool
  succeeded (pos n) = n == 0
  succeeded (negsuc n) = false

  -- The loop over the processors from processor `i`.
  unfoldable pub launch_from : ℕ → ℕ → Bool → ℕ → S → ℤ × S
  launch_from zero i adjusts entry_point s = (pos 0, s)
  launch_from (suc left) i adjusts entry_point s =
      let (result, s') = call_on_cpu i (launch adjusts entry_point i) s in
      let rest = launch_from left (i + 1) adjusts entry_point s' in
      if not (succeeded result) then (negsuc 0, s') else rest

  -- From the call of `load` on.
  unfoldable pub launch_image : Option Loaded → ℕ → ℕ → Bool → S → Option (ℤ × S)
  launch_image none offset cpus adjusts s = none
  launch_image (some image) offset cpus adjusts s =
      if not (truthy image.base)
      then some (negsuc 0, s)
      else if not (truthy cpus)
      then some (negsuc 0, s)
      else some (launch_from cpus 0 adjusts (u64 (image.base + offset)) s)

  -- `fuel` bounds the search of the dynamic table of the image, which stands at `elf_binary`.
  unfoldable pub zpp_load_elf : ℕ → (ℕ → ℕ) → (ℕ → ℕ) → ℕ → (ℕ → ℕ) → ℕ → Bool → S → Option (ℤ × S)
  zpp_load_elf fuel allocate_rwx file elf_binary memory cpus adjusts s =
      let elf = elf_file file elf_binary unloaded in
      launch_image (load fuel allocate_rwx file elf memory) (entry file elf) cpus adjusts s
