-- ===== src/Vmcs/Fields.antt =====
-- hypervisor/include/zpp/x64/intel/vmcs_fields.h: the encodings of the fields. Bits 10 and 11 tell
-- the four kinds apart.
mod Control
mod Information
mod Guest
mod Host
pub use Control.*
pub use Information.*
pub use Guest.*
pub use Host.*
