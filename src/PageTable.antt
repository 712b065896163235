-- ===== src/PageTable.antt =====
-- hypervisor/include/zpp/x64/page_table.h, its detail/page_table.h and
-- hypervisor/src/x64/page_table.cpp: the host page table, which has a single page directory pointer
-- table and two page directories. The arrays are functions of their indices, which are below the
-- extents by construction: 9 bits, or `pdpte / 256`.
pub mod Entries
pub mod Mapping
pub mod Walk
pub mod Host
use zpp_hypervisor.Common.{ℕ, zero, suc, ◌+◌, ◌-◌, ◌*◌, ◌/◌, Bool, true, not, update, if◌then◌else◌}
use zpp_hypervisor.Word.{u64, ◌<<<◌, ◌>>>◌, ◌&&&◌, ◌|||◌, truthy}
use zpp_hypervisor.Pte
use zpp_hypervisor.VirtualAddress

-- `class page_table`, with the address that the object stands at.
pub record PageTable : Type 0 where
  pub address : ℕ
  pub pml4 : ℕ → Pte.Pte
  pub pdpt : ℕ → Pte.Pte
  pub pds : ℕ → ℕ → Pte.Pte
  pub pts : ℕ → ℕ → ℕ → Pte.Pte

abbrev pub page_size : ℕ
page_size = 0x1000

-- Where the arrays stand in the object: each is aligned to a page and fills whole pages.
abbrev pub pml4_address : PageTable → ℕ
pml4_address t = t.address

abbrev pub pdpt_address : PageTable → ℕ
pdpt_address t = t.address + 0x1000

abbrev pub pd_address : PageTable → ℕ → ℕ
pd_address t i = t.address + 0x2000 + 0x1000 * i

abbrev pub pt_address : PageTable → ℕ → ℕ → ℕ
pt_address t i j = t.address + 0x4000 + 0x20_0000 * i + 0x1000 * j

-- `enum class page_table::protection`, by its underlying value.
abbrev pub Protection : Type 0
Protection = ℕ

abbrev pub read : Protection
read = 1

abbrev pub write : Protection
write = 2

abbrev pub execute : Protection
execute = 4

abbrev pub join : Protection → Protection → Protection
join left right = left ||| right

abbrev pub includes : Protection → Protection → Bool
includes left right = truthy (left &&& right)

-- The page directory that an address uses: there are two for the 512 entries.
abbrev pub pd_index : ℕ → ℕ
pd_index address = VirtualAddress.pdpte address / 256

pub virtual_to_physical : PageTable → ℕ → ℕ
virtual_to_physical t value =
    let pdpte = t.pdpt (VirtualAddress.pdpte value) in
    let pde = t.pds (pd_index value) (VirtualAddress.pde value) in
    let pt = t.pts (pd_index value) (VirtualAddress.pde value) in
    if Pte.large pdpte
    then u64 (Pte.page_number pdpte <<< 30 + VirtualAddress.huge_offset value)
    else if Pte.large pde
    then u64 (Pte.page_number pde <<< 21 + VirtualAddress.large_offset value)
    else u64 (Pte.page_number (pt (VirtualAddress.pte value)) <<< 12 + VirtualAddress.offset value)

pub page_table_entry : PageTable → ℕ → Pte.Pte
page_table_entry t address =
    let pdpte = t.pdpt (VirtualAddress.pdpte address) in
    let pde = t.pds (pd_index address) (VirtualAddress.pde address) in
    if Pte.large pdpte
    then pdpte
    else if Pte.large pde
    then pde
    else t.pts (pd_index address) (VirtualAddress.pde address) (VirtualAddress.pte address)

-- An upper entry: the page number of the table below, writable and present.
pub link : ℕ → Pte.Pte → Pte.Pte
link page entry = Pte.set_present true (Pte.set_write true (Pte.set_page_number page entry))

-- The last entry: the page with its protection.
pub map_leaf : ℕ → Protection → Pte.Pte → Pte.Pte
map_leaf page protection entry = Pte.set_present true (
    Pte.set_execute_disable (not (includes protection execute))
      (Pte.set_write (includes protection write) (Pte.set_page_number page entry)))

-- `other` is the `virtual_to_physical` of the other page table, which may be this one: it is asked
-- in the state that the table has at the time of the call.
pub map_page_from : (PageTable → ℕ → ℕ) → ℕ → ℕ → Protection → PageTable → PageTable
map_page_from other address physical_address protection t =
    let pml4e = VirtualAddress.pml4e address in
    let pdpte = VirtualAddress.pdpte address in
    let pde = VirtualAddress.pde address in
    let pte = VirtualAddress.pte address in
    let i = pd_index address in
    let t₁ : PageTable = record t {
      pml4 = update t.pml4 pml4e (link (other t (pdpt_address t) >>> 12) (t.pml4 pml4e));
    } in
    let t₂ : PageTable = record t₁ {
      pdpt = update t₁.pdpt pdpte (link (other t₁ (pd_address t i) >>> 12) (t₁.pdpt pdpte));
    } in
    let t₃ : PageTable = record t₂ {
      pds =
          update t₂.pds i
            (update (t₂.pds i) pde (link (other t₂ (pt_address t i pde) >>> 12) (t₂.pds i pde)));
    } in
    record t₃ {
      pts = update t₃.pts i (
          update (t₃.pts i) pde (
            update (t₃.pts i pde) pte
              (map_leaf (physical_address >>> 12) protection (t₃.pts i pde pte))));
    }

pub map_page : ℕ → ℕ → Protection → PageTable → PageTable
map_page address physical_address protection t =
    map_page_from virtual_to_physical address physical_address protection t

abbrev pub number_of_pages : ℕ → ℕ
number_of_pages size = u64 (size + (page_size - 1)) / page_size

-- The loop of `map_from` from index `i`, with `left` rounds to go.
pub map_pages : (ℕ → ℕ) → ℕ → Protection → ℕ → ℕ → PageTable → PageTable
map_pages other base protection zero i t = t
map_pages other base protection (suc left) i t =
    let address = u64 (base + i * page_size) in
    map_pages other base protection left (i + 1) (map_page address (other address) protection t)

-- `other` is another table, which the loop does not change.
pub map_from : (ℕ → ℕ) → ℕ → ℕ → Protection → PageTable → PageTable
map_from other base_address size protection t =
    map_pages other base_address protection (number_of_pages size) 0 t

-- The loop of `self_map_from`: the tables are found by the other page table too.
pub self_map_pages : (ℕ → ℕ) → ℕ → Protection → ℕ → ℕ → PageTable → PageTable
self_map_pages other base protection zero i t = t
self_map_pages other base protection (suc left) i t =
    let address = u64 (base + i * page_size) in
    self_map_pages other base protection left (i + 1)
      (map_page_from (λ _. other) address (other address) protection t)

pub self_map_from : (ℕ → ℕ) → ℕ → ℕ → Protection → PageTable → PageTable
self_map_from other base_address size protection t =
    self_map_pages other base_address protection (number_of_pages size) 0 t

pub map_self : (ℕ → ℕ) → PageTable → PageTable
map_self other t =
    let read_write = join read write in
    let t₁ = self_map_from other (pml4_address t) 0x1000 read_write t in
    let t₂ = self_map_from other (pdpt_address t) 0x1000 read_write t₁ in
    let t₃ = self_map_from other (pd_address t 0) 0x2000 read_write t₂ in
    self_map_from other (pt_address t 0 0) 0x40_0000 read_write t₃
