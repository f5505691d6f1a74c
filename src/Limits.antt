-- ===== src/Limits.antt =====
-- message.go: the excessive block size, which SetLimits sets for the whole package, and the bounds
-- that are computed from it (message.go, msg_block.go, msg_tx.go, msg_merkle_block.go). The models
-- take the current setting `ebs` as an argument.
use go_wire.Prelude.{ℕ, ◌+◌, ◌*◌, ◌/◌, ◌%◌, ◌^◌}

-- the value of `ebs` before any call of SetLimits
abbrev pub default_ebs : ℕ
default_ebs = 32_000_000

-- SetLimits: the setting after the call, whatever it was
pub set_limits : ℕ → ℕ → ℕ
set_limits ebs excessive_block_size = excessive_block_size

-- MaxVarIntPayload of common.go
abbrev pub max_var_int_payload : ℕ
max_var_int_payload = 9

abbrev pub hash_size : ℕ
hash_size = 32

unfoldable pub max_message_payload : ℕ → ℕ
max_message_payload ebs = ebs / 1_000_000 * 1024 * 1024 * 2 % 2 ^ 64

unfoldable pub max_block_payload : ℕ → ℕ
max_block_payload ebs = ebs

abbrev pub min_tx_in_payload : ℕ
min_tx_in_payload = 9 + hash_size

abbrev pub min_tx_out_payload : ℕ
min_tx_out_payload = 9

abbrev pub min_tx_payload : ℕ
min_tx_payload = 10

unfoldable pub max_tx_in_per_message : ℕ → ℕ
max_tx_in_per_message ebs = max_message_payload ebs / min_tx_in_payload + 1

unfoldable pub max_tx_out_per_message : ℕ → ℕ
max_tx_out_per_message ebs = max_message_payload ebs / min_tx_out_payload + 1

unfoldable pub max_tx_per_block : ℕ → ℕ
max_tx_per_block ebs = max_block_payload ebs / min_tx_payload + 1

unfoldable pub max_flags_per_merkle_block : ℕ → ℕ
max_flags_per_merkle_block ebs = max_tx_per_block ebs / 8
