-- ===== src/Ipc/Directory/Keys.antt =====
-- Two receivers have one key only when they are the same receiver.
use some_server.Base.{◌≡◌, arith, bytes_eq_iff, bytes_eq}
use some_server.Base.Decimal.{split_colon, to_string-injective}
use some_server.Ipc.Types.{ReceiverAddress, receiver_address_eq, receiver_address_eq_iff}
use some_server.Ipc.Directory.{make_key}

-- No two addresses share a key.
pub make_key-injective : (a b : ReceiverAddress) → make_key a ≡ make_key b → a ≡ b
unfolding make_key
make_key-injective a b h =
    let (same_type, rest) = split_colon a.type b.type _ _ h in
    let (same_hi, lo) = split_colon a.key_hi b.key_hi _ _ rest in
    ground (arith, to_string-injective a.key_lo b.key_lo)

-- So the test on keys is the test on addresses.
pub make_key_eq :
    (a b : ReceiverAddress) → bytes_eq (make_key a) (make_key b) ≡ receiver_address_eq a b
make_key_eq a b = ground (
  arith,
  bytes_eq_iff (make_key a) (make_key b),
  receiver_address_eq_iff a b,
  make_key-injective a b,
)
