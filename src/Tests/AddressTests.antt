-- ===== src/Tests/AddressTests.antt =====
-- The text "lo:65536", where inet_addr knows the host.
use tirpc.Address.{check_valid_ip_addr, of_parts, of_text, text_of}
use tirpc.Address.Printing.{of_text-text_of}
use tirpc.Prelude.{ℕ, true, ok, codes, Bytes, ◌≡◌, refl, arith}

abbrev known : Bytes → ℕ
known host = 127

of_text-text_of_example :
    (check_valid_ip_addr known (text_of (codes "lo") 65_536) ≡ ok true)
    × (of_text known (text_of (codes "lo") 65_536) ≡ ok (of_parts known (codes "lo") 0))
of_text-text_of_example =
    of_text-text_of known (codes "lo") 65_536 (omega arith, (omega arith, tt)) refl (omega arith)
