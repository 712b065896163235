-- ===== src/SegmentDescriptor/Gdt.antt =====
-- hypervisor/src/hypervisor/hypervisor.cpp, `initialize_host_gdt`: the processor's reading of the
-- host's descriptor table.
use zpp_hypervisor.Common.{
  ℕ, ◌+◌, ◌-◌, ◌*◌, ◌/◌, ◌%◌, ◌^◌, ◌<◌, ◌≤◌, ◌≡◌, Bool, true, false, List, [], ◌∷◌, refl, ap, ◌∙◌,
  arith,
}
use zpp_hypervisor.Word.{u64, ~◌, ◌<<<◌, ◌>>>◌, ◌&&&◌, ◌|||◌}
use zpp_hypervisor.Word.Fields.{bit_and_mask, put_low_lem, flag-injective}
use zpp_hypervisor.SegmentEntry
use zpp_hypervisor.SegmentEntry.Refine.{
  Fields, Update, set_limit_low, set_limit_high, set_base_low, set_base_middle, set_base_high,
  set_type, set_system, set_privilege_level, set_present, set_available_for_system_use,
  set_code_64_bit, set_default_operation_size, set_granularity, fields, run_fields,
  segment_fields-run,
}
use zpp_hypervisor.SegmentDescriptor.{
  SegmentDescriptor, limit, base, base_extended, context_dependent_base, set_limit, set_base,
  set_base_extended, set_base_upper, from_memory, task_state_segment, tss_size, IntermediateGdt,
  initialize_intermediate_gdt, initialize_host_gdt,
}
use zpp_hypervisor.SegmentDescriptor.Parts.{limit-parts, base-parts, base_extended-parts}

abbrev task_calls : ℕ → ℕ → List Update
task_calls address size =
    set_limit_low ((size - 1) &&& 0xffff)
    ∷ set_limit_high (((size - 1) >>> 16) &&& 0xf)
    ∷ set_base_low ((address &&& 0xffffffff) &&& 0xffff)
    ∷ set_base_middle (((address &&& 0xffffffff) >>> 16) &&& 0xff)
    ∷ set_base_high (((address &&& 0xffffffff) >>> 24) &&& 0xff)
    ∷ set_type 9
    ∷ set_system true
    ∷ set_privilege_level 0
    ∷ set_present true
    ∷ set_available_for_system_use false
    ∷ set_code_64_bit false
    ∷ set_default_operation_size false
    ∷ set_granularity false
    ∷ []

module _ (address size : ℕ) where
  fields-task_state_segment :
      fields (task_state_segment address size).entry
      ≡ run_fields (task_calls address size) (fields 0)
  unfolding task_state_segment set_limit set_base_extended set_base set_base_upper
  fields-task_state_segment = (segment_fields-run (task_calls address size) 0 (omega arith)).1

  -- The extended word is the upper half of the address.
  task-extended : address < 2 ^ 64 → (task_state_segment address size).extended ≡ address / 2 ^ 32
  unfolding task_state_segment set_limit set_base_extended set_base set_base_upper
  task-extended f =
      let part : (address >>> 32) &&& 0xffffffff ≡ address / 2 ^ 32 =
        bit_and_mask 32 (address / 2 ^ 32) ∙ omega arith in
      let again : (address / 2 ^ 32) &&& 0xffffffff ≡ address / 2 ^ 32 =
        bit_and_mask 32 (address / 2 ^ 32) ∙ omega arith in
      let put : (0 &&& ~ 0xffffffff) ||| (address / 2 ^ 32)
          ≡ 0 / 2 ^ 32 * 2 ^ 32 + address / 2 ^ 32 =
        put_low_lem 32 32 0 refl (omega arith) (address / 2 ^ 32) (omega arith) in
      ap (λ x. (0 &&& ~ 0xffffffff) ||| (x &&& 0xffffffff)) part
      ∙ ap (λ x. (0 &&& ~ 0xffffffff) ||| x) again
      ∙ put
      ∙ omega arith

  task-base : address < 2 ^ 64 → base_extended (task_state_segment address size) ≡ address
  task-base f = omega (
    arith,
    base_extended-parts (task_state_segment address size),
    base-parts (task_state_segment address size),
    task-extended f,
    ap (λ (r : Fields). r.base_low) fields-task_state_segment,
    ap (λ (r : Fields). r.base_middle) fields-task_state_segment,
    ap (λ (r : Fields). r.base_high) fields-task_state_segment,
    bit_and_mask 32 address,
    bit_and_mask 16 (address &&& 0xffffffff),
    bit_and_mask 8 ((address &&& 0xffffffff) / 2 ^ 16),
    bit_and_mask 8 ((address &&& 0xffffffff) / 2 ^ 24),
  )

  task-limit : limit (task_state_segment address size) ≡ (size - 1) % 2 ^ 20
  task-limit = omega (
    arith,
    limit-parts (task_state_segment address size),
    ap (λ (r : Fields). r.limit_low) fields-task_state_segment,
    ap (λ (r : Fields). r.limit_high) fields-task_state_segment,
    bit_and_mask 16 (size - 1),
    bit_and_mask 4 ((size - 1) / 2 ^ 16),
  )

  task-system : SegmentEntry.system (task_state_segment address size).entry ≡ true
  task-system = flag-injective _ true (ap (λ (r : Fields). r.system) fields-task_state_segment)

  task-present : SegmentEntry.present (task_state_segment address size).entry ≡ true
  task-present = flag-injective _ true (ap (λ (r : Fields). r.present) fields-task_state_segment)

  task-type : SegmentEntry.type (task_state_segment address size).entry ≡ 9
  task-type = ap (λ (r : Fields). r.type) fields-task_state_segment

task-context :
    (tss : ℕ) → tss < 2 ^ 64 → context_dependent_base (task_state_segment tss tss_size) ≡ tss
unfolding context_dependent_base
task-context tss f = rw (task-system tss tss_size) (task-base tss tss_size f)

-- The task register of the host selects, in the host's table in memory at `base`, a present, available
-- task state segment whose base is the 64-bit address of `host_tss` and whose limit is its last byte.
pub from_memory-initialize_host_gdt :
    (load words : ℕ → ℕ) (base tss : ℕ)
    → tss < 2 ^ 64
    → load (u64 (base + 16)) ≡ (initialize_host_gdt tss words).words 2
    → load (u64 (u64 (base + 16) + 8)) ≡ (initialize_host_gdt tss words).words 3
    → (let task = from_memory load base (initialize_host_gdt tss words).tr in
        (context_dependent_base task ≡ tss)
        × (limit task ≡ 103)
        × (SegmentEntry.present task.entry ≡ true)
        × (SegmentEntry.type task.entry ≡ 9))
unfolding from_memory initialize_host_gdt
from_memory-initialize_host_gdt load words base tss f e₁ e₂ =
    let task = task_state_segment tss tss_size in
    let read : record {
      entry = load (u64 (base + 16));
      extended = load (u64 (u64 (base + 16) + 8));
    }
        ≡ task =
      λ i. record { entry = e₁ i; extended = e₂ i } in
    (
      ap context_dependent_base read ∙ task-context tss f,
      ap limit read ∙ task-limit tss tss_size ∙ omega arith,
      ap (λ (d : SegmentDescriptor). SegmentEntry.present d.entry) read ∙ task-present tss tss_size,
      ap (λ (d : SegmentDescriptor). SegmentEntry.type d.entry) read ∙ task-type tss tss_size,
    )

module _ (load words : ℕ → ℕ) (address base_ limit_ os_tr tss : ℕ) where
  abbrev pub intermediate : IntermediateGdt
  intermediate = initialize_intermediate_gdt load words address base_ limit_ os_tr tss

  abbrev pub os_task_present : Bool
  os_task_present = SegmentEntry.present (from_memory load address os_tr).entry

  -- With a task state segment of the operating system its table is used as it is. Without one the
  -- copy keeps every descriptor it has, and gets a task state segment for the guest behind them,
  -- which the new task register selects and which the new limit covers. The table's limit is that
  -- of whole words and leaves room for two more.
  pub initialize_intermediate_gdt_lem :
      (limit_ + 1) % 8 ≡ 0
      → limit_ + 16 < 2 ^ 16
      → (os_task_present ≡ true
          → (intermediate.words ≡ words)
            × (intermediate.guest_gdt_pointer ≡ base_)
            × (intermediate.guest_gdt_limit ≡ limit_)
            × (intermediate.guest_tr ≡ os_tr))
        × (os_task_present ≡ false
            → ((j : ℕ) → 8 * j ≤ limit_ → intermediate.words j ≡ words j)
              × (intermediate.guest_gdt_pointer ≡ address)
              × (intermediate.guest_tr + 15 ≡ intermediate.guest_gdt_limit)
              × (intermediate.words (intermediate.guest_tr / 8)
                  ≡ (task_state_segment tss tss_size).entry)
              × (intermediate.words (intermediate.guest_tr / 8 + 1)
                  ≡ (task_state_segment tss tss_size).extended))
  unfolding initialize_intermediate_gdt
  initialize_intermediate_gdt_lem whole room = (
    λ present. rw present (refl, refl, refl, refl),
    λ absent.
        let index : (((limit_ + 1) / 8) <<< 3) % 2 ^ 16 / 8 ≡ (limit_ + 1) / 8 = omega arith in
        rw (absent, index)
          (λ j inside. ground arith, refl, omega arith, ground arith, ground arith),
  )
