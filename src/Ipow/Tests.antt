-- ===== src/Ipow/Tests.antt =====
-- The power at concrete numbers.
use tcp_client_server.Prelude.{◌^◌, ◌%◌, ◌≡◌}
use tcp_client_server.Ipow.{ipow}
use tcp_client_server.Ipow.Correct.{ipow-eq-pow}

ipow-eq-pow_example : ipow 10 12 ≡ 10 ^ 12 % 2 ^ 32
ipow-eq-pow_example = ipow-eq-pow 10 12
