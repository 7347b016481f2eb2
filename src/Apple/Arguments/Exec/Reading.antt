-- ===== src/Apple/Arguments/Exec/Reading.antt =====
-- What `parse_exec_service` of src/runtime/apple.rs makes of a command line.
use dip_rust.Text.{Text}
