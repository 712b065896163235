-- ===== src/SegmentDescriptor.antt =====
-- hypervisor/include/zpp/x64/segment_descriptor.h: the descriptor of 16 bytes, and the descriptors
-- that hypervisor/src/hypervisor/hypervisor.cpp writes into the host's and the intermediate global
-- descriptor table. The fields of the first 8 bytes are in SegmentEntry.
pub mod Parts
pub mod Gdt
use zpp_hypervisor.Common.{
  ℕ, ◌+◌, ◌-◌, ◌*◌, ◌/◌, ◌%◌, ◌^◌, Bool, true, false, not, ◌==◌, if◌then◌else◌, update,
}
use zpp_hypervisor.Word.{u64, ◌<<<◌, ◌>>>◌, ◌&&&◌, ◌|||◌, ~◌, flag}
use zpp_hypervisor.SegmentEntry

-- `m_entry` and `m_extended`.
pub record SegmentDescriptor : Type 0 where
  pub entry : ℕ
  pub extended : ℕ

abbrev pub empty : SegmentDescriptor
empty = record { entry = 0; extended = 0 }

-- `load` reads the 64-bit word at an address.
pub from_memory : (ℕ → ℕ) → ℕ → ℕ → SegmentDescriptor
from_memory load base selector =
    let address = u64 (base + (selector &&& ~ 0x3)) in
    if selector == 0
    then empty
    else if selector == 0x1fff
    then record { entry = load address; extended = 0 }
    else record { entry = load address; extended = load (u64 (address + 8)) }

pub limit : SegmentDescriptor → ℕ
limit d = SegmentEntry.limit_low d.entry ||| SegmentEntry.limit_high d.entry <<< 16

pub set_limit : ℕ → SegmentDescriptor → SegmentDescriptor
set_limit value d = record d {
  entry =
      SegmentEntry.set_limit_high ((value >>> 16) &&& 0xf)
        (SegmentEntry.set_limit_low (value &&& 0xffff) d.entry);
}

pub base : SegmentDescriptor → ℕ
base d =
    (SegmentEntry.base_low d.entry ||| SegmentEntry.base_middle d.entry <<< 16)
    ||| SegmentEntry.base_high d.entry <<< 24

pub set_base : ℕ → SegmentDescriptor → SegmentDescriptor
set_base value d = record d {
  entry = SegmentEntry.set_base_high ((value >>> 24) &&& 0xff) (
      SegmentEntry.set_base_middle ((value >>> 16) &&& 0xff)
        (SegmentEntry.set_base_low (value &&& 0xffff) d.entry));
}

pub base_upper : SegmentDescriptor → ℕ
base_upper d = d.extended &&& 0xffffffff

pub set_base_upper : ℕ → SegmentDescriptor → SegmentDescriptor
set_base_upper value d = record d {
  extended = (d.extended &&& ~ 0xffffffff) ||| (value &&& 0xffffffff);
}

pub base_extended : SegmentDescriptor → ℕ
base_extended d = base d ||| base_upper d <<< 32

pub set_base_extended : ℕ → SegmentDescriptor → SegmentDescriptor
set_base_extended value d =
    set_base_upper ((value >>> 32) &&& 0xffffffff) (set_base (value &&& 0xffffffff) d)

pub context_dependent_base : SegmentDescriptor → ℕ
context_dependent_base d = if SegmentEntry.system d.entry then base_extended d else base d

pub vmx_access_rights : SegmentDescriptor → ℕ
vmx_access_rights d =
    ((d.entry >>> 40) &&& 0xffff) ||| flag (not (SegmentEntry.present d.entry)) <<< 16

-- The calls on a descriptor's entry from `type` to `granularity`.
abbrev pub attributes : ℕ → Bool → Bool → Bool → SegmentDescriptor → SegmentDescriptor
attributes type system code_64_bit granularity d = record d {
  entry = SegmentEntry.set_granularity granularity (
      SegmentEntry.set_default_operation_size false (
        SegmentEntry.set_code_64_bit code_64_bit (
          SegmentEntry.set_available_for_system_use false (
            SegmentEntry.set_present true (
              SegmentEntry.set_privilege_level 0
                (SegmentEntry.set_system system (SegmentEntry.set_type type d.entry)))))));
}

-- The code segment and the task state segment of `initialize_host_gdt`.
pub code_segment : SegmentDescriptor
code_segment = attributes 10 false true true (set_base 0 (set_limit 0xfffff empty))

pub task_state_segment : ℕ → ℕ → SegmentDescriptor
task_state_segment address size =
    attributes 9 true false false (set_base_extended address (set_limit (size - 1) empty))

-- `std::uint32_t host_tss[26]`.
abbrev pub tss_size : ℕ
tss_size = 4 * 26

-- What `initialize_host_gdt` leaves: the table, by the index of its 64-bit words, and the selectors.
pub record HostGdt : Type 0 where
  pub words : ℕ → ℕ
  pub cs : ℕ
  pub tr : ℕ

pub initialize_host_gdt : ℕ → (ℕ → ℕ) → HostGdt
initialize_host_gdt tss words =
    let task = task_state_segment tss tss_size in
    let words₁ = update words 1 code_segment.entry in
    let words₂ = update words₁ 2 task.entry in
    record { words = update words₂ (2 + 1) task.extended; cs = 1 <<< 3; tr = 2 <<< 3 }

-- The fields of the hypervisor that `initialize_intermediate_gdt` sets. The guest uses the table of
-- the operating system where that has a task state segment, and the intermediate table otherwise.
pub record IntermediateGdt : Type 0 where
  pub words : ℕ → ℕ
  pub guest_gdt_pointer : ℕ
  pub guest_gdt_limit : ℕ
  pub intermediate_gdt_limit : ℕ
  pub guest_tr : ℕ

-- `words` is the table at `address` as copied from the operating system's, and `load` reads memory
-- once it is copied; `base_` and `limit_` are the operating system's table, `os_tr` its task
-- register, and `tss` the address of the guest's task state segment.
pub initialize_intermediate_gdt : (ℕ → ℕ) → (ℕ → ℕ) → ℕ → ℕ → ℕ → ℕ → ℕ → IntermediateGdt
initialize_intermediate_gdt load words address base_ limit_ os_tr tss =
    let loaded = from_memory load address os_tr in
    let task = task_state_segment tss tss_size in
    let tr_index = (limit_ + 1) / 8 in
    if SegmentEntry.present loaded.entry
    then record {
      words = words;
      guest_gdt_pointer = base_;
      guest_gdt_limit = limit_;
      intermediate_gdt_limit = limit_;
      guest_tr = os_tr;
    }
    else record {
      words = update (update words tr_index task.entry) (tr_index + 1) task.extended;
      guest_gdt_pointer = address;
      guest_gdt_limit = limit_ + 2 * 8;
      intermediate_gdt_limit = limit_ + 2 * 8;
      guest_tr = tr_index <<< 3 % 2 ^ 16;
    }
