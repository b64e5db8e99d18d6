-- ===== src/Address.antt =====
-- net/base/address.cpp: addresses of the internet. inet_addr, inet_ntoa are arguments; a member that a
-- constructor leaves without a value is `none`. The machine is little-endian.
pub mod Printing
use tirpc.Http.{atoi}
use tirpc.Prelude.{
  ℕ, ◌+◌, ◌-◌, ◌*◌, ◌/◌, ◌%◌, Bool, true, false, ◌||◌, List, [], ◌∷◌, ◌++◌, Option, none, some,
  if◌then◌else◌, ◌==◌, ltb, length, take, drop, ℤ, pos, negsuc, Bytes, find_first_of, to_string,
  until_zero, Outcome, ok, ◌>>=◌,
}

-- sockaddr_in, with its port in the order of the network.
pub record SockAddr : Type 0 where
  pub s_addr : ℕ
  pub sin_port : ℕ

pub record IpAddress : Type 0 where
  pub ip : Bytes
  pub port : Option ℕ
  pub addr : Option SockAddr

abbrev pub htons : ℕ → ℕ
htons p = p % 256 * 256 + p / 256 % 256

-- The conversion of an `int` to uint16_t.
abbrev pub to_uint16 : ℤ → ℕ
to_uint16 (pos n) = n % 65_536
to_uint16 (negsuc n) = 65_535 - n % 65_536

abbrev pub any_addr : ℕ
any_addr = 0

-- The text behind the colon at `i`, as atoi reads it.
abbrev pub port_text : ℕ → Bytes → Bytes
port_text i addr = until_zero (drop (i + 1) addr)

unfoldable pub check_port : ℤ → Bool
check_port (pos n) = if ltb 65_536 n then false else true
check_port (negsuc n) = false

module _ (inet_addr : Bytes → ℕ) where
  -- CheckValidIPAddr, where INADDR_NONE is 2 ^ 32 - 1.
  unfoldable pub check_valid_ip_addr : Bytes → Outcome Bool
  unfolding check_port find_first_of atoi
  check_valid_ip_addr addr = elim (find_first_of (58 ∷ []) addr) [
    | none ↦ ok false
    | some i ↦ atoi (port_text i addr) >>= λ port. ok (
        if check_port port
        then (if inet_addr (until_zero (take i addr)) == 4_294_967_295 then false else true)
        else false)
  ]

  -- IPAddress(ip, port)
  unfoldable pub of_parts : Bytes → ℕ → IpAddress
  of_parts ip port = record {
    ip = ip;
    port = some port;
    addr = some (record { s_addr = inet_addr (until_zero ip); sin_port = htons port });
  }

  -- IPAddress(addr) of a text: one without a colon leaves the port and the socket's address as they are.
  unfoldable pub of_text : Bytes → Outcome IpAddress
  unfolding find_first_of atoi of_parts
  of_text addr = elim (find_first_of (58 ∷ []) addr) [
    | none ↦ ok (record { ip = []; port = none; addr = none })
    | some i ↦ atoi (port_text i addr) >>= λ port. ok (of_parts (take i addr) (to_uint16 port))
  ]

-- IPAddress(port)
unfoldable pub of_port : ℕ → IpAddress
of_port port = record {
  ip = [];
  port = some port;
  addr = some (record { s_addr = any_addr; sin_port = htons port });
}

-- IPAddress(sockaddr_in)
unfoldable pub of_sock : (ℕ → Bytes) → SockAddr → IpAddress
of_sock inet_ntoa addr = record {
  ip = inet_ntoa addr.s_addr;
  port = some (htons addr.sin_port);
  addr = some addr;
}

unfoldable pub set_port : ℕ → IpAddress → IpAddress
set_port port a = record a {
  port = some port;
  addr = some (record { s_addr = any_addr; sin_port = htons port });
}

-- ToString, for an address that has a port.
unfoldable pub text_of : Bytes → ℕ → Bytes
text_of ip port = ip ++ (58 ∷ to_string port)
