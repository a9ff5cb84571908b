-- ===== src/Acl/Services/Last.antt =====
-- internal/features/acl/ip_services.go: the other entries of `servicePorts`.
use fastiron_tofu.Prelude.{List, [], ◌∷◌, ℕ, String}

abbrev pub services_d : List (String × ℕ)
services_d =
    ("obex", 650)
    ∷ ("objcall", 94)
    ∷ ("ocbinder", 183)
    ∷ ("ocs_amu", 429)
    ∷ ("ocs_cmu", 428)
    ∷ ("ocserver", 184)
    ∷ ("odmr", 366)
    ∷ ("ohimsrv", 506)
    ∷ ("olsr", 698)
    ∷ ("omginitialrefs", 900)
    ∷ ("omserv", 764)
    ∷ ("onmux", 417)
    ∷ ("oob-ws-https", 664)
    ∷ ("opalis-robot", 314)
    ∷ ("opc-job-start", 423)
    ∷ ("opc-job-track", 424)
    ∷ ("openport", 260)
    ∷ ("openvms-sysipc", 557)
    ∷ ("osu-nms", 192)
    ∷ ("passgo", 511)
    ∷ ("passgo-tivoli", 627)
    ∷ ("password-chg", 586)
    ∷ ("pawserv", 345)
    ∷ ("pcmail-srv", 158)
    ∷ ("pdap", 344)
    ∷ ("personal-link", 281)
    ∷ ("pftp", 662)
    ∷ ("ph", 481)
    ∷ ("philips-vc", 583)
    ∷ ("phonebook", 767)
    ∷ ("photuris", 468)
    ∷ ("pim-rp-disc", 496)
    ∷ ("pip", 321)
    ∷ ("pkix-3-ca-ra", 829)
    ∷ ("pkix-timestamp", 318)
    ∷ ("pop2", 109)
    ∷ ("pop3", 110)
    ∷ ("pop3s", 995)
    ∷ ("pov-ray", 494)
    ∷ ("powerburst", 485)
    ∷ ("print-srv", 170)
    ∷ ("printer", 515)
    ∷ ("prm-nm", 409)
    ∷ ("prm-sm", 408)
    ∷ ("profile", 136)
    ∷ ("prospero", 191)
    ∷ ("pssc", 645)
    ∷ ("ptcnameservice", 597)
    ∷ ("ptp-event", 319)
    ∷ ("ptp-gen", 320)
    ∷ ("pump", 751)
    ∷ ("purenoise", 663)
    ∷ ("pwdgen", 129)
    ∷ ("qbikgdp", 368)
    ∷ ("qft", 189)
    ∷ ("qmqp", 628)
    ∷ ("qotd", 17)
    ∷ ("qrh", 752)
    ∷ ("quotad", 762)
    ∷ ("rap", 38)
    ∷ ("rcp", 469)
    ∷ ("rda", 630)
    ∷ ("re-mail-ck", 50)
    ∷ ("realm-rusd", 688)
    ∷ ("remote-kis", 185)
    ∷ ("remotefs", 556)
    ∷ ("repcmd", 641)
    ∷ ("repscmd", 653)
    ∷ ("rescap", 283)
    ∷ ("rfile", 750)
    ∷ ("ripng", 521)
    ∷ ("ris", 180)
    ∷ ("ris-cm", 748)
    ∷ ("rje", 5)
    ∷ ("rlp", 39)
    ∷ ("rlzdbase", 635)
    ∷ ("rmc", 657)
    ∷ ("rmonitor", 560)
    ∷ ("rmt", 411)
    ∷ ("router", 520)
    ∷ ("rpasswd", 774)
    ∷ ("rpc2portmap", 369)
    ∷ ("rrh", 753)
    ∷ ("rrp", 648)
    ∷ ("rsh-spx", 222)
    ∷ ("rsvd", 168)
    ∷ ("rsvp-tun", 363)
    ∷ ("rsync", 873)
    ∷ ("rtelnet", 107)
    ∷ ("rtip", 771)
    ∷ ("rtsp", 554)
    ∷ ("rtsps", 322)
    ∷ ("rushd", 696)
    ∷ ("rxe", 761)
    ∷ ("s-net", 166)
    ∷ ("saft", 487)
    ∷ ("sanity", 643)
    ∷ ("scc-security", 582)
    ∷ ("sco-dtmgr", 617)
    ∷ ("sco-inetmgr", 615)
    ∷ ("sco-sysmgr", 616)
    ∷ ("sco-websrvrmg3", 598)
    ∷ ("sco-websrvrmgr", 620)
    ∷ ("scohelp", 457)
    ∷ ("scoi2odialog", 360)
    ∷ ("scx-proxy", 470)
    ∷ ("sdnskmp", 558)
    ∷ ("semantix", 361)
    ∷ ("send", 169)
    ∷ ("servstat", 633)
    ∷ ("set", 257)
    ∷ ("sfs-config", 452)
    ∷ ("sfs-smp-net", 451)
    ∷ ("sftp", 115)
    ∷ ("sgcp", 440)
    ∷ ("sgmp", 153)
    ∷ ("sgmp-traps", 160)
    ∷ ("shell", 514)
    ∷ ("shrinkwrap", 358)
    ∷ ("siam", 498)
    ∷ ("sift-uft", 608)
    ∷ ("silc", 706)
    ∷ ("silverplatter", 416)
    ∷ ("skronk", 460)
    ∷ ("smakynet", 122)
    ∷ ("smartsdp", 426)
    ∷ ("smpnameres", 901)
    ∷ ("smpte", 420)
    ∷ []

abbrev pub services_e : List (String × ℕ)
services_e =
    ("smsd", 596)
    ∷ ("smsp", 413)
    ∷ ("smtp", 25)
    ∷ ("smux", 199)
    ∷ ("snagas", 108)
    ∷ ("snare", 509)
    ∷ ("snmp", 161)
    ∷ ("snmp-trap", 162)
    ∷ ("snpp", 444)
    ∷ ("sntp-heartbeat", 580)
    ∷ ("soap-beep", 605)
    ∷ ("softpc", 215)
    ∷ ("sonar", 572)
    ∷ ("spmp", 656)
    ∷ ("spsc", 478)
    ∷ ("sql*net", 66)
    ∷ ("sql-net", 150)
    ∷ ("sqlserv", 118)
    ∷ ("sqlsrv", 156)
    ∷ ("src", 200)
    ∷ ("srmp", 193)
    ∷ ("srssend", 362)
    ∷ ("ss7ns", 477)
    ∷ ("ssh", 22)
    ∷ ("sshell", 614)
    ∷ ("ssl", 443)
    ∷ ("sst", 266)
    ∷ ("statsrv", 133)
    ∷ ("stmf", 501)
    ∷ ("streettalk", 566)
    ∷ ("su-mit-tg", 89)
    ∷ ("submission", 587)
    ∷ ("submit", 773)
    ∷ ("subntbc-tftp", 247)
    ∷ ("sun-dr", 665)
    ∷ ("sunrpc", 111)
    ∷ ("supdup", 95)
    ∷ ("sur-meas", 243)
    ∷ ("svrloc", 427)
    ∷ ("swift-rvf", 97)
    ∷ ("synoptics-trap", 412)
    ∷ ("synotics-broker", 392)
    ∷ ("synotics-relay", 391)
    ∷ ("syslog-conn", 601)
    ∷ ("systat", 11)
    ∷ ("tacacs", 49)
    ∷ ("tacacs-ds", 65)
    ∷ ("tacnews", 98)
    ∷ ("talk", 517)
    ∷ ("tam", 209)
    ∷ ("tcpmux", 1)
    ∷ ("tcpnethaspsrv", 475)
    ∷ ("td-replica", 268)
    ∷ ("td-service", 267)
    ∷ ("teedtap", 559)
    ∷ ("tell", 754)
    ∷ ("telnet", 23)
    ∷ ("telnets", 992)
    ∷ ("tempo", 526)
    ∷ ("tenfold", 658)
    ∷ ("texar", 333)
    ∷ ("tftp", 69)
    ∷ ("ticf-1", 492)
    ∷ ("ticf-2", 493)
    ∷ ("timbuktu", 407)
    ∷ ("time", 37)
    ∷ ("timed", 525)
    ∷ ("tinc", 655)
    ∷ ("tn-tl-fd1", 476)
    ∷ ("tn-tl-w2", 474)
    ∷ ("tnetos", 377)
    ∷ ("tns-cml", 590)
    ∷ ("tpip", 594)
    ∷ ("tserver", 450)
    ∷ ("uaac", 145)
    ∷ ("uarps", 219)
    ∷ ("uis", 390)
    ∷ ("ulistserv", 372)
    ∷ ("ulpnet", 483)
    ∷ ("unidata-ldm", 388)
    ∷ ("unify", 181)
    ∷ ("unitary", 126)
    ∷ ("ups", 401)
    ∷ ("urd", 465)
    ∷ ("urm", 606)
    ∷ ("utime", 519)
    ∷ ("utmpcd", 431)
    ∷ ("utmpsd", 430)
    ∷ ("uucp", 540)
    ∷ ("uucp-path", 117)
    ∷ ("uucp-rlogin", 541)
    ∷ ("uuidgen", 697)
    ∷ ("vacdsm-app", 671)
    ∷ ("vacdsm-sws", 670)
    ∷ ("vatp", 690)
    ∷ ("vemmi", 575)
    ∷ ("vettcp", 78)
    ∷ ("vid", 769)
    ∷ ("vmnet", 175)
    ∷ ("vmpwscs", 214)
    ∷ ("vnas", 577)
    ∷ ("vpp", 677)
    ∷ ("vpps-qua", 672)
    ∷ ("vpps-via", 676)
    ∷ ("vsinet", 996)
    ∷ ("vslmp", 312)
    ∷ ("webster", 765)
    ∷ ("whoami", 565)
    ∷ ("whois-pp", 63)
    ∷ ("work-sol", 400)
    ∷ ("wpages", 776)
    ∷ ("wpgs", 780)
    ∷ ("x-bone-ctl", 265)
    ∷ ("xact-backup", 911)
    ∷ ("xdmcp", 177)
    ∷ ("xfer", 82)
    ∷ ("xfr", 682)
    ∷ ("xns-auth", 56)
    ∷ ("xns-ch", 54)
    ∷ ("xns-courier", 165)
    ∷ ("xns-mail", 58)
    ∷ ("xns-time", 52)
    ∷ ("xvttp", 508)
    ∷ ("xyplex-mux", 173)
    ∷ ("yak-chat", 258)
    ∷ ("z39.50", 210)
    ∷ ("zannet", 317)
    ∷ ("zserv", 346)
    ∷ []
