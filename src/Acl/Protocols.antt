-- ===== src/Acl/Protocols.antt =====
-- internal/features/acl/ip_protocols.go: the map `protocolNumbers`.
use fastiron_tofu.Prelude.{List, [], ◌∷◌, ℕ, String}

abbrev pub protocol_numbers : List (String × ℕ)
protocol_numbers =
    ("a_n", 107)
    ∷ ("ahp", 51)
    ∷ ("argus", 13)
    ∷ ("aris", 104)
    ∷ ("ax25", 93)
    ∷ ("bbn-rcc", 10)
    ∷ ("bna", 49)
    ∷ ("br-sat-mon", 76)
    ∷ ("cbt", 7)
    ∷ ("cftp", 62)
    ∷ ("chaos", 16)
    ∷ ("compaq-peer", 110)
    ∷ ("cphb", 73)
    ∷ ("cpnx", 72)
    ∷ ("crdup", 127)
    ∷ ("crtp", 126)
    ∷ ("dcn", 19)
    ∷ ("ddp", 37)
    ∷ ("ddx", 116)
    ∷ ("dgp", 86)
    ∷ ("divert", 254)
    ∷ ("egp", 8)
    ∷ ("emcon", 14)
    ∷ ("encap", 98)
    ∷ ("esp", 50)
    ∷ ("etherip", 97)
    ∷ ("fc", 133)
    ∷ ("fire", 125)
    ∷ ("ggp", 3)
    ∷ ("gmtp", 100)
    ∷ ("gre", 47)
    ∷ ("hmp", 20)
    ∷ ("i-nlsp", 52)
    ∷ ("iatp", 117)
    ∷ ("icmp", 1)
    ∷ ("idpr", 35)
    ∷ ("idpr-cmtp", 38)
    ∷ ("idrp", 45)
    ∷ ("ifmp", 101)
    ∷ ("igmp", 2)
    ∷ ("igp", 9)
    ∷ ("igrp", 88)
    ∷ ("il", 40)
    ∷ ("ipcomp", 108)
    ∷ ("ipcv", 71)
    ∷ ("ipencap", 4)
    ∷ ("ipip", 94)
    ∷ ("iplt", 129)
    ∷ ("ippc", 67)
    ∷ ("ipv6", 41)
    ∷ ("ipv6-frag", 44)
    ∷ ("ipv6-icmp", 58)
    ∷ ("ipv6-nonxt", 59)
    ∷ ("ipv6-opts", 60)
    ∷ ("ipv6-route", 43)
    ∷ ("ipx-in-ip", 111)
    ∷ ("irtp", 28)
    ∷ ("isis", 124)
    ∷ ("iso-ip", 80)
    ∷ ("iso-tp4", 29)
    ∷ ("kryptolan", 65)
    ∷ ("l2tp", 115)
    ∷ ("larp", 91)
    ∷ ("leaf-1", 25)
    ∷ ("leaf-2", 26)
    ∷ ("merit-inp", 32)
    ∷ ("mfe-nsp", 31)
    ∷ ("mhrp", 48)
    ∷ ("micp", 95)
    ∷ ("mobile", 55)
    ∷ ("mtp", 92)
    ∷ ("mux", 18)
    ∷ ("narp", 54)
    ∷ ("netblt", 30)
    ∷ ("nsfnet-igp", 85)
    ∷ ("nvp", 11)
    ∷ ("ospf", 89)
    ∷ ("pgm", 113)
    ∷ ("pim", 103)
    ∷ ("pipe", 131)
    ∷ ("pnni", 102)
    ∷ ("prm", 21)
    ∷ ("ptp", 123)
    ∷ ("pup", 12)
    ∷ ("pvp", 75)
    ∷ ("qnx", 106)
    ∷ ("rdp", 27)
    ∷ ("rsvp", 46)
    ∷ ("rvd", 66)
    ∷ ("sat-expak", 64)
    ∷ ("sat-mon", 69)
    ∷ ("scc-sp", 96)
    ∷ ("scps", 105)
    ∷ ("sctp", 132)
    ∷ ("sdrp", 42)
    ∷ ("secure-vmtp", 82)
    ∷ ("sep", 33)
    ∷ ("skip", 57)
    ∷ ("sm", 122)
    ∷ ("smp", 121)
    ∷ ("snp", 109)
    ∷ ("sprite-rpc", 90)
    ∷ ("sps", 130)
    ∷ ("srp", 119)
    ∷ ("sscopmce", 128)
    ∷ ("st", 118)
    ∷ ("st2", 5)
    ∷ ("sun-nd", 77)
    ∷ ("swipe", 53)
    ∷ ("tcf", 87)
    ∷ ("tcp", 6)
    ∷ ("third-pc", 34)
    ∷ ("tlsp", 56)
    ∷ ("tp++", 39)
    ∷ ("trunk-1", 23)
    ∷ ("trunk-2", 24)
    ∷ ("ttp", 84)
    ∷ ("udp", 17)
    ∷ ("uti", 120)
    ∷ ("vines", 83)
    ∷ ("visa", 70)
    ∷ ("vmtp", 81)
    ∷ ("vrrp", 112)
    ∷ ("wb-expak", 79)
    ∷ ("wb-mon", 78)
    ∷ ("wsn", 74)
    ∷ ("xnet", 15)
    ∷ ("xns-idp", 22)
    ∷ ("xtp", 36)
    ∷ []
