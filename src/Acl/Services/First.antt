-- ===== src/Acl/Services/First.antt =====
-- internal/features/acl/ip_services.go: the first entries of `servicePorts`.
use fastiron_tofu.Prelude.{List, [], ◌∷◌, ℕ, String}

abbrev pub services_a : List (String × ℕ)
services_a =
    ("3com-amp3", 629)
    ∷ ("3com-tsmux", 106)
    ∷ ("914c-g", 211)
    ∷ ("9pfs", 564)
    ∷ ("acap", 674)
    ∷ ("acas", 62)
    ∷ ("accessbuilder", 888)
    ∷ ("accessnetwork", 699)
    ∷ ("aci", 187)
    ∷ ("acp", 599)
    ∷ ("acr-nema", 104)
    ∷ ("aed-512", 149)
    ∷ ("agentx", 705)
    ∷ ("alpes", 463)
    ∷ ("ampr-rcmd", 459)
    ∷ ("anet", 212)
    ∷ ("ansanotify", 116)
    ∷ ("ansatrader", 124)
    ∷ ("aodv", 654)
    ∷ ("apertus-ldp", 539)
    ∷ ("apex-edge", 913)
    ∷ ("apex-mesh", 912)
    ∷ ("appleqtc", 458)
    ∷ ("arcisdms", 262)
    ∷ ("ariel1", 419)
    ∷ ("ariel2", 421)
    ∷ ("ariel3", 422)
    ∷ ("arns", 384)
    ∷ ("as-servermap", 449)
    ∷ ("asa", 386)
    ∷ ("asa-appl-proto", 502)
    ∷ ("asf-rmcp", 623)
    ∷ ("asia", 626)
    ∷ ("asip-webadmin", 311)
    ∷ ("asipregistry", 687)
    ∷ ("at-3", 203)
    ∷ ("at-5", 205)
    ∷ ("at-7", 207)
    ∷ ("at-8", 208)
    ∷ ("at-echo", 204)
    ∷ ("at-nbp", 202)
    ∷ ("at-rtmp", 201)
    ∷ ("at-zis", 206)
    ∷ ("atls", 216)
    ∷ ("audionews", 114)
    ∷ ("audit", 182)
    ∷ ("auditd", 48)
    ∷ ("aurora-cmgr", 364)
    ∷ ("aurp", 387)
    ∷ ("auth", 113)
    ∷ ("avian", 486)
    ∷ ("banyan-rpc", 567)
    ∷ ("banyan-vip", 573)
    ∷ ("bdp", 581)
    ∷ ("bftp", 152)
    ∷ ("bgmp", 264)
    ∷ ("bgp", 179)
    ∷ ("bgs-nsi", 482)
    ∷ ("bh611", 354)
    ∷ ("bhevent", 357)
    ∷ ("bhfhs", 248)
    ∷ ("bhmds", 310)
    ∷ ("bl-idm", 142)
    ∷ ("bmpp", 632)
    ∷ ("bnet", 415)
    ∷ ("bootpc", 68)
    ∷ ("bootps", 67)
    ∷ ("borland-dsj", 707)
    ∷ ("busboy", 998)
    ∷ ("cab-protocol", 595)
    ∷ ("cableport-ax", 282)
    ∷ ("cadlock", 770)
    ∷ ("cadlock2", 1000)
    ∷ ("cadview-3d", 649)
    ∷ ("cal", 588)
    ∷ ("cdc", 223)
    ∷ ("cfdptkt", 120)
    ∷ ("chargen", 19)
    ∷ ("chshell", 562)
    ∷ ("cimplex", 673)
    ∷ ("cisco-fna", 130)
    ∷ ("cisco-sys", 132)
    ∷ ("cisco-tdp", 711)
    ∷ ("cisco-tna", 131)
    ∷ ("citadel", 504)
    ∷ ("cl/1", 172)
    ∷ ("clearcase", 371)
    ∷ ("cloanto-net-1", 356)
    ∷ ("cmip-agent", 164)
    ∷ ("cmip-man", 163)
    ∷ ("codaauth2", 370)
    ∷ ("collaborator", 622)
    ∷ ("compaq-evm", 619)
    ∷ ("compressnt1", 2)
    ∷ ("compressnt2", 3)
    ∷ ("comscm", 437)
    ∷ ("con", 759)
    ∷ ("conference", 531)
    ∷ ("connendp", 693)
    ∷ ("contentserver", 454)
    ∷ ("corba-iiop", 683)
    ∷ ("corba-iiop-ssl", 684)
    ∷ ("corerjd", 284)
    ∷ ("courier", 530)
    ∷ ("covia", 64)
    ∷ ("creativepartnr", 455)
    ∷ ("creativeserver", 453)
    ∷ ("cronus", 148)
    ∷ ("crs", 507)
    ∷ ("cryptoadmin", 624)
    ∷ ("csi-sgwp", 348)
    ∷ ("csnet-ns", 105)
    ∷ ("ctf", 84)
    ∷ ("cvc_hostd", 442)
    ∷ ("cycleserv", 763)
    ∷ ("cycleserv2", 772)
    ∷ ("dantz", 497)
    ∷ ("dasp", 439)
    ∷ ("datasurfsrv", 461)
    ∷ ("datasurfsrvsec", 462)
    ∷ ("datex-asn", 355)
    ∷ ("daytime", 13)
    ∷ ("dbase", 217)
    ∷ ("dcp", 93)
    ∷ ("dctp", 675)
    ∷ ("ddm-byte", 448)
    ∷ ("ddm-dfm", 447)
    ∷ ("ddm-rdb", 446)
    ∷ []

abbrev pub services_b : List (String × ℕ)
services_b =
    ("dec_dlm", 625)
    ∷ ("decap", 403)
    ∷ ("decauth", 316)
    ∷ ("decbsrv", 579)
    ∷ ("decladebug", 410)
    ∷ ("decvms-sysmgt", 441)
    ∷ ("dei-icda", 618)
    ∷ ("deos", 76)
    ∷ ("device", 801)
    ∷ ("dhcp-failover", 647)
    ∷ ("dhcp-failover2", 847)
    ∷ ("digital-vrc", 466)
    ∷ ("dis", 393)
    ∷ ("discard", 9)
    ∷ ("disclose", 667)
    ∷ ("dixie", 96)
    ∷ ("dls", 197)
    ∷ ("dls-mon", 198)
    ∷ ("dn6-nlm-aud", 195)
    ∷ ("dn6-smm-red", 196)
    ∷ ("dna-cml", 436)
    ∷ ("dns", 53)
    ∷ ("dnsix", 90)
    ∷ ("dpsi", 315)
    ∷ ("dsetos", 378)
    ∷ ("dsf", 555)
    ∷ ("dsfgw", 438)
    ∷ ("dsp", 33)
    ∷ ("dsp3270", 246)
    ∷ ("dtag-ste-sb", 352)
    ∷ ("dtk", 365)
    ∷ ("dwr", 644)
    ∷ ("echo", 7)
    ∷ ("elcsd", 704)
    ∷ ("embl-ndt", 394)
    ∷ ("emfis-cntl", 141)
    ∷ ("emfis-data", 140)
    ∷ ("entomb", 775)
    ∷ ("entrust-aaas", 680)
    ∷ ("entrust-aams", 681)
    ∷ ("entrust-ash", 710)
    ∷ ("entrust-kmsh", 709)
    ∷ ("entrust-sps", 640)
    ∷ ("entrusttime", 309)
    ∷ ("erpc", 121)
    ∷ ("escp-ip", 621)
    ∷ ("esro-emsdp", 642)
    ∷ ("esro-gen", 259)
    ∷ ("eudora-set", 592)
    ∷ ("exec", 512)
    ∷ ("eyelink", 589)
    ∷ ("fatserv", 347)
    ∷ ("fcp", 510)
    ∷ ("fcp-udp", 810)
    ∷ ("finger", 79)
    ∷ ("flexlm", 744)
    ∷ ("fln-spx", 221)
    ∷ ("ftp", 21)
    ∷ ("ftp-agent", 574)
    ∷ ("ftp-data", 20)
    ∷ ("ftps", 990)
    ∷ ("ftps-data", 989)
    ∷ ("fujitsu-dev", 747)
    ∷ ("fxp-1", 286)
    ∷ ("gacp", 190)
    ∷ ("garcon", 999)
    ∷ ("genie", 402)
    ∷ ("genrad-mux", 176)
    ∷ ("ggf-ncp", 678)
    ∷ ("ginad", 634)
    ∷ ("go-login", 491)
    ∷ ("gopher", 70)
    ∷ ("gppitnp", 103)
    ∷ ("graphics", 41)
    ∷ ("gss-http", 488)
    ∷ ("gss-xlicen", 128)
    ∷ ("ha-cluster", 694)
    ∷ ("hap", 661)
    ∷ ("hassle", 375)
    ∷ ("hcp-wismar", 686)
    ∷ ("hdap", 263)
    ∷ ("hello-port", 652)
    ∷ ("hems", 151)
    ∷ ("hmmp-ind", 612)
    ∷ ("hmmp-op", 613)
    ∷ ("hostname", 101)
    ∷ ("hosts2-ns", 81)
    ∷ ("hp-alarm-mgr", 383)
    ∷ ("hp-collector", 381)
    ∷ ("hp-managed-node", 382)
    ∷ ("http", 80)
    ∷ ("http-alt", 591)
    ∷ ("http-mgmt", 280)
    ∷ ("http-rpc-epmap", 593)
    ∷ ("hybrid-pop", 473)
    ∷ ("hyper-g", 418)
    ∷ ("hyperwave-isp", 692)
    ∷ ("iafdbase", 480)
    ∷ ("iafserver", 479)
    ∷ ("iasd", 432)
    ∷ ("ibm-app", 385)
    ∷ ("icad-el", 425)
    ∷ ("iclcnet-locate", 886)
    ∷ ("iclcnet_svinfo", 887)
    ∷ ("ideafarm-catch", 903)
    ∷ ("ideafarm-chat", 902)
    ∷ ("ieee-mms", 651)
    ∷ ("ieee-mms-ssl", 695)
    ∷ ("imap3", 220)
    ∷ ("imap4", 143)
    ∷ ("imap4-ssl", 585)
    ∷ ("imaps", 993)
    ∷ ("imsp", 406)
    ∷ ("infoseek", 414)
    ∷ ("ingres-net", 134)
    ∷ ("intecourier", 495)
    ∷ ("integra-sme", 484)
    ∷ ("intrinsa", 503)
    ∷ ("ipcd", 576)
    ∷ ("ipcserver", 600)
    ∷ ("ipdd", 578)
    ∷ ("ipp", 631)
    ∷ ("ipx", 213)
    ∷ ("irc", 194)
    ∷ ("ircs", 994)
    ∷ ("is99c", 379)
    ∷ ("is99s", 380)
    ∷ ("isakmp", 500)
    ∷ []

abbrev pub services_c : List (String × ℕ)
services_c =
    ("isi-gl", 55)
    ∷ ("iso-ill", 499)
    ∷ ("iso-ip", 147)
    ∷ ("iso-tp0", 146)
    ∷ ("iso-tsap", 102)
    ∷ ("iso-tsap-c2", 399)
    ∷ ("itm-mcell-s", 828)
    ∷ ("k-block", 287)
    ∷ ("kerberos", 88)
    ∷ ("kerberos-adm", 749)
    ∷ ("keyserver", 584)
    ∷ ("kis", 186)
    ∷ ("klogin", 543)
    ∷ ("knet-cmp", 157)
    ∷ ("kpasswd", 464)
    ∷ ("kryptolan", 398)
    ∷ ("kshell", 544)
    ∷ ("la-maint", 51)
    ∷ ("lanserver", 637)
    ∷ ("ldap", 389)
    ∷ ("ldaps", 636)
    ∷ ("ldp", 646)
    ∷ ("legent-1", 373)
    ∷ ("legent-2", 374)
    ∷ ("link", 245)
    ∷ ("ljk-login", 472)
    ∷ ("loc-srv", 135)
    ∷ ("locus-con", 127)
    ∷ ("locus-map", 125)
    ∷ ("login", 513)
    ∷ ("mac-srvr-admin", 660)
    ∷ ("macon-tcp", 456)
    ∷ ("magenta-logic", 313)
    ∷ ("mailbox-lm", 505)
    ∷ ("mailq", 174)
    ∷ ("maitrd", 997)
    ∷ ("matip-type-a", 350)
    ∷ ("matip-type-b", 351)
    ∷ ("mcidas", 112)
    ∷ ("mcns-sec", 638)
    ∷ ("mdbs_daemon", 800)
    ∷ ("mdc-portmapper", 685)
    ∷ ("mdqs", 666)
    ∷ ("mecomm", 668)
    ∷ ("meregister", 669)
    ∷ ("metagram", 99)
    ∷ ("meter-570", 570)
    ∷ ("meter-571", 571)
    ∷ ("mfcobol", 86)
    ∷ ("mftp", 349)
    ∷ ("micom-pfs", 490)
    ∷ ("microsoft-ds", 445)
    ∷ ("mit-dov", 91)
    ∷ ("mit-ml-dev1", 83)
    ∷ ("mit-ml-dev2", 85)
    ∷ ("mobile-ip", 434)
    ∷ ("mobilip-mn", 435)
    ∷ ("mondex", 471)
    ∷ ("monitor", 561)
    ∷ ("mortgageware", 367)
    ∷ ("mpm", 45)
    ∷ ("mpm-flags", 44)
    ∷ ("mpm-snd", 46)
    ∷ ("mpp", 218)
    ∷ ("mptn", 397)
    ∷ ("mrm", 679)
    ∷ ("ms-rome", 569)
    ∷ ("ms-shuttle", 568)
    ∷ ("msdp", 639)
    ∷ ("msexch-routing", 691)
    ∷ ("msg-auth", 31)
    ∷ ("msg-icp", 29)
    ∷ ("msp", 18)
    ∷ ("multiling-http", 777)
    ∷ ("multiplex", 171)
    ∷ ("mumps", 188)
    ∷ ("mylex-mapd", 467)
    ∷ ("nameserver", 42)
    ∷ ("namp", 167)
    ∷ ("nas", 991)
    ∷ ("nced", 404)
    ∷ ("ncld", 405)
    ∷ ("ndsauth", 353)
    ∷ ("nest-protocol", 489)
    ∷ ("netbios-dgm", 138)
    ∷ ("netbios-ns", 137)
    ∷ ("netbios-ssn", 139)
    ∷ ("netcp", 395)
    ∷ ("netgw", 741)
    ∷ ("netnews", 532)
    ∷ ("netrcs", 742)
    ∷ ("netrjs-1", 71)
    ∷ ("netrjs-2", 72)
    ∷ ("netrjs-3", 73)
    ∷ ("netrjs-4", 74)
    ∷ ("netsc-dev", 155)
    ∷ ("netsc-prod", 154)
    ∷ ("netviewdm1", 729)
    ∷ ("netviewdm2", 730)
    ∷ ("netviewdm3", 731)
    ∷ ("netwall", 533)
    ∷ ("netware-ip", 396)
    ∷ ("new-rwho", 550)
    ∷ ("newacct", 100)
    ∷ ("news", 144)
    ∷ ("nextstep", 178)
    ∷ ("ni-ftp", 47)
    ∷ ("ni-mail", 61)
    ∷ ("nicname", 43)
    ∷ ("nip", 376)
    ∷ ("nlogin", 758)
    ∷ ("nmap", 689)
    ∷ ("nnsp", 433)
    ∷ ("nntp", 119)
    ∷ ("nntps", 563)
    ∷ ("novastorbakcup", 308)
    ∷ ("npmp-gui", 611)
    ∷ ("npmp-local", 610)
    ∷ ("npmp-trap", 609)
    ∷ ("npp", 92)
    ∷ ("nqs", 607)
    ∷ ("ns", 760)
    ∷ ("nsiiops", 261)
    ∷ ("nsrmp", 359)
    ∷ ("nss-routing", 159)
    ∷ ("nsw-fe", 27)
    ∷ ("ntalk", 518)
    ∷ ("ntp", 123)
    ∷ []
