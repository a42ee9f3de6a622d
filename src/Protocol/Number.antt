-- ===== src/Protocol/Number.antt =====
-- `enum Protocol` and `enum Flag` of libtun/include/libtun/protocol/ip4.h, as the bytes they are.
use zn_tunnel.Prelude.{ℕ}

abbrev pub icmp : ℕ
icmp = 1

abbrev pub igmp : ℕ
igmp = 2

abbrev pub tcp : ℕ
tcp = 6

abbrev pub udp : ℕ
udp = 17

abbrev pub igrp : ℕ
igrp = 88

abbrev pub ospf : ℕ
ospf = 89

abbrev pub no_flag : ℕ
no_flag = 0

abbrev pub more_fragment : ℕ
more_fragment = 1

abbrev pub dont_fragment : ℕ
dont_fragment = 2
