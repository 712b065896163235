-- ===== src/ExtendedPaging.antt =====
-- The extended page tables of hypervisor/src/hypervisor/hypervisor.cpp: `protect_module` and
-- `unprotect_guest_memory`, which hide the hypervisor's pages from the guest. The set-up of the
-- tables, `initialize_ept`, is in ExtendedPaging/Initialize.antt.
pub mod Entries
pub mod View
pub mod Invariant
pub mod Convert
pub mod Protect
pub mod Hiding
pub mod Mtrrs
pub mod Initialize
pub mod Isolation
use zpp_hypervisor.Common.{
  ℕ, zero, suc, ◌+◌, ◌-◌, ◌*◌, ◌/◌, ◌%◌, Bool, true, false, ◌==◌, ltb, ◌&&◌, Option, none, some,
  if◌then◌else◌, update,
}
use zpp_hypervisor.Word.{u64, ◌<<<◌, ◌>>>◌, ◌&&&◌}
use zpp_hypervisor.Epte
use zpp_hypervisor.SmallMap.{SmallMap}
use zpp_hypervisor.SmallMap.Lookup.{lookup}
use zpp_hypervisor.ErrorCode.{Outcome, ok, failed, fault, out_of_ept_entries}

abbrev pub page_size : ℕ
page_size = 0x1000

-- `std::extent_v<decltype(this->ept)>`.
abbrev pub ept_count : ℕ
ept_count = 1024

-- The tables, with the index of the next free `ept`.
pub record Tables : Type 0 where
  pub epd : ℕ → ℕ → Epte.Epte
  pub ept : ℕ → ℕ → Epte.Epte
  pub ept_index : ℕ

-- What the functions read and do not change: the translation of the host page table, the map from
-- the module's physical pages back, and where the array `ept` stands.
pub record Host : Type 0 where
  pub virtual_to_physical : ℕ → ℕ
  pub module_physical_to_virtual : SmallMap ℕ
  pub ept_address : ℕ

-- The address of `ept[k]`: a table is a page.
abbrev pub table_address : Host → ℕ → ℕ
table_address h k = h.ept_address + page_size * k

-- The table that a pointer to an element of `ept` points to.
abbrev pub table_at : Host → ℕ → Option ℕ
table_at h pointer =
    let k = (pointer - h.ept_address) / page_size in
    if (pointer == table_address h k) && ltb k ept_count then some k else none

-- The value of the entry that the map found, as a table.
abbrev pub found_table : Host → Option ℕ → Option ℕ
found_table h none = none
found_table h (some pointer) = table_at h pointer

-- `module_physical_to_virtual.find(physical)->second` as a table.
pub resolve : Host → ℕ → Option ℕ
resolve h physical = found_table h (lookup h.module_physical_to_virtual physical)

-- The four calls that set the rights of an entry.
pub grant : Bool → Epte.Epte → Epte.Epte
grant value e =
    Epte.set_execute_user value
      (Epte.set_execute value (Epte.set_write value (Epte.set_read value e)))

-- An entry of a table that replaces a large page.
pub small_entry : ℕ → ℕ → Epte.Epte → Epte.Epte
small_entry memory_type page_number e =
    Epte.set_type memory_type (Epte.set_page_number page_number (grant true e))

-- The loop over the 512 entries of a new table, from `j` on.
pub fill_table : ℕ → ℕ → ℕ → ℕ → (ℕ → Epte.Epte) → ℕ → Epte.Epte
fill_table zero j memory_type page_number table = table
fill_table (suc n) j memory_type page_number table =
    fill_table n (j + 1) memory_type page_number
      (update table j (small_entry memory_type (page_number + j) (table j)))

-- The entry made to point to the table at a physical address.
pub point_to : ℕ → Epte.Epte → Epte.Epte
point_to physical e =
    Epte.set_page_number (physical >>> 12) (Epte.set_type 0 (Epte.set_large false e))

-- Convert the large entry `epd[a][b]` into the table `ept[ept_index]`, and go to the next table.
pub convert : Host → ℕ → ℕ → Tables → Tables
convert h a b t =
    let epde = t.epd a b in
    let page_number = Epte.large_page_number epde <<< (21 - 12) in
    let table = fill_table 512 0 (Epte.type epde) page_number (t.ept t.ept_index) in
    let physical = h.virtual_to_physical (table_address h t.ept_index) in
    record {
      epd = update t.epd a (update (t.epd a) b (point_to physical epde));
      ept = update t.ept t.ept_index table;
      ept_index = t.ept_index + 1;
    }

-- Set the rights of `ept[k][c]`.
pub set_rights : Bool → ℕ → ℕ → Tables → Tables
set_rights value k c t = record t {
  ept = update t.ept k (update (t.ept k) c (grant value (t.ept k c)));
}

-- The body of the loop of `protect_module`, for the page at a physical address.
pub protect_page : Host → ℕ → Tables → Outcome Tables
protect_page h physical t =
    let a = physical >>> 30 in
    let b = (physical >>> 21) &&& 0x1ff in
    let c = (physical >>> 12) &&& 0x1ff in
    let epde = t.epd a b in
    let t' = convert h a b t in
    if ltb a 512
    then if Epte.large epde
      then if t'.ept_index == ept_count
        then failed out_of_ept_entries
        else ok (set_rights false t.ept_index c t')
      else elim (resolve h (Epte.page_number epde <<< 12)) [
        | none ↦ fault
        | some k ↦ ok (set_rights false k c t)
      ]
    else fault

-- The loop of `protect_module` from page `i` on, with `left` pages to go.
pub protect_pages : Host → ℕ → ℕ → ℕ → Tables → Outcome Tables
protect_pages h module_base zero i t = ok t
protect_pages h module_base (suc left) i t =
    elim (protect_page h (h.virtual_to_physical (module_base + i * page_size)) t) [
      | ok t' ↦ protect_pages h module_base left (i + 1) t'
      | failed e ↦ failed e
      | fault ↦ fault
    ]

pub protect_module : Host → ℕ → ℕ → (ℕ → ℕ → Epte.Epte) → (ℕ → ℕ → Epte.Epte) → Outcome Tables
protect_module h module_base module_size epd ept =
    protect_pages h module_base (module_size / page_size) 0
      (record { epd = epd; ept = ept; ept_index = 0 })

-- The body of the loop of `unprotect_guest_memory`.
pub unprotect_page : Host → ℕ → Tables → Outcome Tables
unprotect_page h physical t =
    let a = physical >>> 30 in
    let b = (physical >>> 21) &&& 0x1ff in
    let c = (physical >>> 12) &&& 0x1ff in
    let epde = t.epd a b in
    if ltb a 512
    then elim (resolve h (Epte.page_number epde <<< 12)) [
      | none ↦ fault
      | some k ↦ ok (set_rights true k c t)
    ]
    else fault

pub unprotect_pages : Host → ℕ → ℕ → ℕ → Tables → Outcome Tables
unprotect_pages h address zero i t = ok t
unprotect_pages h address (suc left) i t =
    elim (unprotect_page h (h.virtual_to_physical (address + i * page_size)) t) [
      | ok t' ↦ unprotect_pages h address left (i + 1) t'
      | failed e ↦ failed e
      | fault ↦ fault
    ]

pub unprotect_guest_memory : Host → ℕ → ℕ → Tables → Outcome Tables
unprotect_guest_memory h address size t = unprotect_pages h address (size / page_size) 0 t
