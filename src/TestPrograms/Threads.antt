-- ===== src/TestPrograms/Threads.antt =====
-- The threads of test_send.cpp and test_recv.cpp that open the connection, with the addresses that each file
-- defines. test_send starts the first of its two, test_recv the second.
use stellar_bench.Base.{ℕ, ◌≡◌, refl}

pub data Address : Type 0 where
  address_12_12_10_13 address_12_12_11_13 : Address

-- What a thread hands to `rc_client_loop`.
pub record Peer : Type 0 where
  pub remote_ip : Address
  pub remote_port : ℕ

-- RIP, RPORT and LPORT of test_send.cpp: `rc_server_loop` is given the port alone.
unfoldable pub test_send_sends : Peer
test_send_sends = record { remote_ip = Address.address_12_12_10_13; remote_port = 4444 }

unfoldable pub test_send_listens : ℕ
test_send_listens = 5555

-- Those of test_recv.cpp.
unfoldable pub test_recv_sends : Peer
test_recv_sends = record { remote_ip = Address.address_12_12_10_13; remote_port = 5555 }

unfoldable pub test_recv_listens : ℕ
test_recv_listens = 4444

-- Each program connects to the port where the other listens; but both have the same address for the
-- other.
pub test_wired :
    (test_send_sends.remote_port ≡ test_recv_listens)
    × (test_recv_sends.remote_port ≡ test_send_listens)
    × (test_send_sends.remote_ip ≡ test_recv_sends.remote_ip)
unfolding test_send_sends test_recv_sends test_send_listens test_recv_listens
test_wired = (refl, refl, refl)
