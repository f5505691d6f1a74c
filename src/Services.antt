-- ===== src/Services.antt =====
-- protocol.go: ServiceFlag, a set of services as the bits of a uint64, and its operators & and |, with
-- HasService and AddService of msg_version.go and net_address.go.
pub mod Sets
use go_wire.Prelude.{ℕ, ◌*◌, ◌/◌, ◌==◌, ◌+◌, ◌%◌, zero, if◌then◌else◌, ◌&&◌, suc, Bool}
use go_wire.NetAddress.{NetAddress}
use go_wire.Version.{MsgVersion}

-- & and | of two bits
unfoldable pub and_bit : ℕ → ℕ → ℕ
and_bit x y = if x == 1 && y == 1 then 1 else 0

unfoldable pub or_bit : ℕ → ℕ → ℕ
or_bit x y = if x == 0 && y == 0 then 0 else 1

-- `a & b` and `a | b` of the lowest k bits
unfoldable pub bit_and : ℕ → ℕ → ℕ → ℕ
bit_and zero a b = 0
bit_and (suc k) a b = and_bit (a % 2) (b % 2) + 2 * bit_and k (a / 2) (b / 2)

unfoldable pub bit_or : ℕ → ℕ → ℕ → ℕ
bit_or zero a b = 0
bit_or (suc k) a b = or_bit (a % 2) (b % 2) + 2 * bit_or k (a / 2) (b / 2)

-- `services & service == service`
unfoldable pub contains_service : ℕ → ℕ → Bool
contains_service services service = bit_and 64 services service == service

-- `services |= service`
unfoldable pub with_service : ℕ → ℕ → ℕ
with_service services service = bit_or 64 services service

unfoldable pub has_service : MsgVersion → ℕ → Bool
has_service msg service = contains_service msg.services service

unfoldable pub add_service : MsgVersion → ℕ → MsgVersion
add_service msg service = record msg { services = with_service msg.services service }

unfoldable pub address_has_service : NetAddress → ℕ → Bool
address_has_service na service = contains_service na.services service

unfoldable pub address_add_service : NetAddress → ℕ → NetAddress
address_add_service na service = record na { services = with_service na.services service }
