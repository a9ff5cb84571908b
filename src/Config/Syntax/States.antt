-- ===== src/Config/Syntax/States.antt =====
-- internal/config/command_parser.go: the tables that a state indexes, of the machine `syntax`.
use fastiron_tofu.Prelude.{ℕ, List, [], ◌∷◌}

abbrev pub syntax_key_offsets : List ℕ
syntax_key_offsets =
    0 ∷ 0 ∷ 14 ∷ 15 ∷ 16 ∷ 17 ∷ 19 ∷ 23 ∷ 29 ∷ 33 ∷ 38 ∷ 40 ∷ 43 ∷ 45 ∷ 48 ∷ 50 ∷ 55 ∷ 56 ∷ 57 ∷ 58
    ∷ 59 ∷ 60 ∷ 61 ∷ 62 ∷ 63 ∷ 65 ∷ 68 ∷ 69 ∷ 70 ∷ 71 ∷ 72 ∷ 74 ∷ 79 ∷ 81 ∷ 86 ∷ 92 ∷ 93 ∷ 94 ∷ 95
    ∷ 98 ∷ 102 ∷ 103 ∷ 104 ∷ 107 ∷ 111 ∷ 116 ∷ 117 ∷ 118 ∷ 119 ∷ 120 ∷ 121 ∷ 122 ∷ 123 ∷ 124 ∷ 126
    ∷ 127 ∷ 128 ∷ 129 ∷ 130 ∷ 131 ∷ 132 ∷ 133 ∷ 134 ∷ 135 ∷ 136 ∷ 137 ∷ 138 ∷ 139 ∷ 141 ∷ 146 ∷ 148
    ∷ 151 ∷ 152 ∷ 153 ∷ 154 ∷ 155 ∷ 156 ∷ 159 ∷ 162 ∷ 163 ∷ 164 ∷ 165 ∷ 168 ∷ 172 ∷ 175 ∷ 177 ∷ 180
    ∷ 182 ∷ 187 ∷ 191 ∷ 192 ∷ 194 ∷ 198 ∷ 201 ∷ 203 ∷ 206 ∷ 208 ∷ 213 ∷ 214 ∷ 215 ∷ 216 ∷ 218 ∷ 220
    ∷ 222 ∷ 223 ∷ 224 ∷ 225 ∷ 227 ∷ 230 ∷ 231 ∷ 232 ∷ 233 ∷ 234 ∷ 237 ∷ 241 ∷ 242 ∷ 243 ∷ 244 ∷ 247
    ∷ 251 ∷ 254 ∷ 256 ∷ 259 ∷ 261 ∷ 266 ∷ 269 ∷ 271 ∷ 272 ∷ 273 ∷ 274 ∷ 275 ∷ 277 ∷ 278 ∷ 279 ∷ 280
    ∷ 281 ∷ 282 ∷ 283 ∷ 284 ∷ 286 ∷ 290 ∷ 295 ∷ 296 ∷ 297 ∷ 298 ∷ 299 ∷ 301 ∷ 305 ∷ 310 ∷ 311 ∷ 312
    ∷ 313 ∷ 314 ∷ 315 ∷ 316 ∷ 318 ∷ 322 ∷ 327 ∷ 328 ∷ 329 ∷ 330 ∷ 332 ∷ 333 ∷ 334 ∷ 335 ∷ 336 ∷ 337
    ∷ 338 ∷ 340 ∷ 344 ∷ 349 ∷ 353 ∷ 356 ∷ 362 ∷ 363 ∷ 364 ∷ 365 ∷ 366 ∷ 367 ∷ 368 ∷ 369 ∷ 370 ∷ 371
    ∷ 372 ∷ 374 ∷ 378 ∷ 379 ∷ 380 ∷ 381 ∷ 382 ∷ 383 ∷ 384 ∷ 385 ∷ 387 ∷ 391 ∷ 395 ∷ 396 ∷ 397 ∷ 398
    ∷ 399 ∷ 400 ∷ 401 ∷ 402 ∷ 404 ∷ 405 ∷ 406 ∷ 408 ∷ 411 ∷ 412 ∷ 413 ∷ 414 ∷ 415 ∷ 416 ∷ 417 ∷ 418
    ∷ 419 ∷ 420 ∷ 421 ∷ 422 ∷ 423 ∷ 424 ∷ 426 ∷ 435 ∷ 446 ∷ 447 ∷ 448 ∷ 449 ∷ 450 ∷ 451 ∷ 452 ∷ 453
    ∷ 454 ∷ 457 ∷ 458 ∷ 459 ∷ 460 ∷ 461 ∷ 462 ∷ 463 ∷ 464 ∷ 465 ∷ 467 ∷ 475 ∷ 481 ∷ 487 ∷ 493 ∷ 499
    ∷ 505 ∷ 509 ∷ 515 ∷ 521 ∷ 527 ∷ 533 ∷ 539 ∷ 545 ∷ 551 ∷ 557 ∷ 563 ∷ 569 ∷ 575 ∷ 581 ∷ 587 ∷ 593
    ∷ 599 ∷ 605 ∷ 611 ∷ 617 ∷ 623 ∷ 629 ∷ 635 ∷ 641 ∷ 647 ∷ 653 ∷ 659 ∷ 665 ∷ 669 ∷ 670 ∷ 671 ∷ 672
    ∷ 674 ∷ 679 ∷ 685 ∷ 691 ∷ 697 ∷ 701 ∷ 702 ∷ 704 ∷ 708 ∷ 709 ∷ 710 ∷ 711 ∷ 712 ∷ 713 ∷ 714 ∷ 715
    ∷ 716 ∷ 717 ∷ 718 ∷ 720 ∷ 721 ∷ 722 ∷ 723 ∷ 724 ∷ 725 ∷ 727 ∷ 728 ∷ 730 ∷ 734 ∷ 737 ∷ 742 ∷ 746
    ∷ 750 ∷ 754 ∷ 758 ∷ 762 ∷ 766 ∷ 769 ∷ 775 ∷ 779 ∷ 782 ∷ 789 ∷ 794 ∷ 798 ∷ 802 ∷ 806 ∷ 807 ∷ 808
    ∷ 810 ∷ 815 ∷ 816 ∷ 817 ∷ 818 ∷ 819 ∷ 820 ∷ 822 ∷ 827 ∷ 828 ∷ 829 ∷ 830 ∷ 831 ∷ 833 ∷ 837 ∷ 838
    ∷ 839 ∷ 840 ∷ 841 ∷ 842 ∷ 843 ∷ 844 ∷ 845 ∷ 846 ∷ 848 ∷ 851 ∷ 852 ∷ 853 ∷ 854 ∷ 855 ∷ 856 ∷ 857
    ∷ 858 ∷ 859 ∷ 860 ∷ 862 ∷ 865 ∷ 866 ∷ 867 ∷ 868 ∷ 869 ∷ 870 ∷ 871 ∷ 872 ∷ 873 ∷ 874 ∷ 875 ∷ 876
    ∷ 877 ∷ 878 ∷ 880 ∷ 883 ∷ 884 ∷ 885 ∷ 886 ∷ 887 ∷ 888 ∷ 889 ∷ 890 ∷ 891 ∷ 892 ∷ 893 ∷ 895 ∷ 900
    ∷ 901 ∷ 902 ∷ 903 ∷ 904 ∷ 905 ∷ 906 ∷ 907 ∷ 908 ∷ 909 ∷ 910 ∷ 913 ∷ 918 ∷ 919 ∷ 920 ∷ 921 ∷ 922
    ∷ 923 ∷ 924 ∷ 925 ∷ 926 ∷ 927 ∷ 928 ∷ 929 ∷ 930 ∷ 931 ∷ 932 ∷ 934 ∷ 937 ∷ 938 ∷ 939 ∷ 940 ∷ 941
    ∷ 942 ∷ 943 ∷ 944 ∷ 946 ∷ 950 ∷ 954 ∷ 957 ∷ 958 ∷ 959 ∷ 960 ∷ 962 ∷ 966 ∷ 970 ∷ 971 ∷ 972 ∷ 973
    ∷ 974 ∷ 975 ∷ 977 ∷ 980 ∷ 981 ∷ 982 ∷ 983 ∷ 985 ∷ 989 ∷ 993 ∷ 994 ∷ 995 ∷ 996 ∷ 997 ∷ 998 ∷ 999
    ∷ 1000 ∷ 1002 ∷ 1003 ∷ 1004 ∷ 1005 ∷ 1006 ∷ 1007 ∷ 1008 ∷ 1009 ∷ 1010 ∷ 1011 ∷ 1013 ∷ 1015
    ∷ 1016 ∷ 1017 ∷ 1018 ∷ 1019 ∷ 1020 ∷ 1021 ∷ 1022 ∷ 1023 ∷ 1024 ∷ 1025 ∷ 1026 ∷ 1027 ∷ 1028
    ∷ 1029 ∷ 1030 ∷ 1031 ∷ 1032 ∷ 1033 ∷ 1034 ∷ 1035 ∷ 1036 ∷ 1037 ∷ 1038 ∷ 1039 ∷ 1040 ∷ 1041
    ∷ 1043 ∷ 1044 ∷ 1045 ∷ 1046 ∷ 1047 ∷ 1049 ∷ 1050 ∷ 1051 ∷ 1052 ∷ 1053 ∷ 1054 ∷ 1055 ∷ 1056
    ∷ 1057 ∷ 1058 ∷ 1059 ∷ 1061 ∷ 1062 ∷ 1064 ∷ 1067 ∷ 1068 ∷ 1069 ∷ 1070 ∷ 1071 ∷ 1072 ∷ 1073
    ∷ 1074 ∷ 1075 ∷ 1076 ∷ 1077 ∷ 1079 ∷ 1080 ∷ 1081 ∷ 1082 ∷ 1083 ∷ 1084 ∷ 1085 ∷ 1086 ∷ 1088
    ∷ 1097 ∷ 1103 ∷ 1109 ∷ 1115 ∷ 1121 ∷ 1125 ∷ 1126 ∷ 1128 ∷ 1133 ∷ 1134 ∷ 1135 ∷ 1136 ∷ 1137
    ∷ 1138 ∷ 1140 ∷ 1143 ∷ 1144 ∷ 1145 ∷ 1146 ∷ 1147 ∷ 1150 ∷ 1153 ∷ 1154 ∷ 1155 ∷ 1156 ∷ 1159
    ∷ 1163 ∷ 1166 ∷ 1168 ∷ 1171 ∷ 1173 ∷ 1176 ∷ 1177 ∷ 1178 ∷ 1179 ∷ 1181 ∷ 1182 ∷ 1183 ∷ 1184
    ∷ 1186 ∷ 1190 ∷ 1192 ∷ 1193 ∷ 1194 ∷ 1195 ∷ 1196 ∷ 1197 ∷ 1198 ∷ 1199 ∷ 1200 ∷ 1201 ∷ 1202
    ∷ 1203 ∷ 1205 ∷ 1209 ∷ 1210 ∷ 1211 ∷ 1212 ∷ 1213 ∷ 1214 ∷ 1216 ∷ 1219 ∷ 1220 ∷ 1221 ∷ 1222
    ∷ 1223 ∷ 1224 ∷ 1225 ∷ 1226 ∷ 1227 ∷ 1228 ∷ 1229 ∷ 1230 ∷ 1231 ∷ 1232 ∷ 1233 ∷ 1234 ∷ 1235
    ∷ 1236 ∷ 1237 ∷ 1238 ∷ 1239 ∷ 1240 ∷ 1241 ∷ 1242 ∷ 1243 ∷ 1244 ∷ 1245 ∷ 1246 ∷ 1247 ∷ 1248
    ∷ 1249 ∷ 1250 ∷ 1251 ∷ 1252 ∷ 1253 ∷ 1254 ∷ 1255 ∷ 1257 ∷ 1258 ∷ 1259 ∷ 1261 ∷ 1262 ∷ 1263
    ∷ 1264 ∷ 1265 ∷ 1267 ∷ 1270 ∷ 1271 ∷ 1274 ∷ 1276 ∷ 1277 ∷ 1278 ∷ 1279 ∷ 1280 ∷ 1281 ∷ 1282
    ∷ 1283 ∷ 1284 ∷ 1285 ∷ 1286 ∷ 1287 ∷ 1288 ∷ 1290 ∷ 1293 ∷ 1294 ∷ 1295 ∷ 1296 ∷ 1299 ∷ 1302
    ∷ 1303 ∷ 1304 ∷ 1306 ∷ 1309 ∷ 1310 ∷ 1311 ∷ 1312 ∷ 1313 ∷ 1314 ∷ 1315 ∷ 1316 ∷ 1317 ∷ 1318
    ∷ 1319 ∷ 1320 ∷ 1323 ∷ 1328 ∷ 1329 ∷ 1330 ∷ 1331 ∷ 1332 ∷ 1333 ∷ 1336 ∷ 1340 ∷ 1341 ∷ 1342
    ∷ 1343 ∷ 1344 ∷ 1345 ∷ 1346 ∷ 1347 ∷ 1349 ∷ 1354 ∷ 1356 ∷ 1359 ∷ 1360 ∷ 1361 ∷ 1362 ∷ 1363
    ∷ 1364 ∷ 1365 ∷ 1366 ∷ 1367 ∷ 1368 ∷ 1369 ∷ 1370 ∷ 1371 ∷ 1372 ∷ 1373 ∷ 1374 ∷ 1375 ∷ 1376
    ∷ 1377 ∷ 1378 ∷ 1379 ∷ 1380 ∷ 1381 ∷ 1383 ∷ 1384 ∷ 1385 ∷ 1386 ∷ 1387 ∷ 1389 ∷ 1392 ∷ 1393
    ∷ 1394 ∷ 1395 ∷ 1396 ∷ 1397 ∷ 1398 ∷ 1399 ∷ 1400 ∷ 1401 ∷ 1402 ∷ 1403 ∷ 1404 ∷ 1405 ∷ 1408
    ∷ 1409 ∷ 1410 ∷ 1412 ∷ 1417 ∷ 1419 ∷ 1424 ∷ 1425 ∷ 1426 ∷ 1427 ∷ 1428 ∷ 1429 ∷ 1430 ∷ 1431
    ∷ 1432 ∷ 1434 ∷ 1438 ∷ 1439 ∷ 1441 ∷ 1444 ∷ 1445 ∷ 1446 ∷ 1447 ∷ 1448 ∷ 1449 ∷ 1450 ∷ 1451
    ∷ 1452 ∷ 1453 ∷ []

abbrev pub syntax_single_lengths : List ℕ
syntax_single_lengths =
    0 ∷ 14 ∷ 1 ∷ 1 ∷ 1 ∷ 2 ∷ 2 ∷ 4 ∷ 2 ∷ 3 ∷ 0 ∷ 1 ∷ 0 ∷ 1 ∷ 0 ∷ 3 ∷ 1 ∷ 1 ∷ 1 ∷ 1 ∷ 1 ∷ 1 ∷ 1 ∷ 1
    ∷ 2 ∷ 3 ∷ 1 ∷ 1 ∷ 1 ∷ 1 ∷ 2 ∷ 3 ∷ 0 ∷ 3 ∷ 6 ∷ 1 ∷ 1 ∷ 1 ∷ 3 ∷ 4 ∷ 1 ∷ 1 ∷ 3 ∷ 2 ∷ 3 ∷ 1 ∷ 1 ∷ 1
    ∷ 1 ∷ 1 ∷ 1 ∷ 1 ∷ 1 ∷ 2 ∷ 1 ∷ 1 ∷ 1 ∷ 1 ∷ 1 ∷ 1 ∷ 1 ∷ 1 ∷ 1 ∷ 1 ∷ 1 ∷ 1 ∷ 1 ∷ 2 ∷ 3 ∷ 0 ∷ 1 ∷ 1
    ∷ 1 ∷ 1 ∷ 1 ∷ 1 ∷ 3 ∷ 3 ∷ 1 ∷ 1 ∷ 1 ∷ 3 ∷ 2 ∷ 1 ∷ 0 ∷ 1 ∷ 0 ∷ 3 ∷ 4 ∷ 1 ∷ 2 ∷ 2 ∷ 1 ∷ 0 ∷ 1 ∷ 0
    ∷ 3 ∷ 1 ∷ 1 ∷ 1 ∷ 2 ∷ 2 ∷ 2 ∷ 1 ∷ 1 ∷ 1 ∷ 2 ∷ 3 ∷ 1 ∷ 1 ∷ 1 ∷ 1 ∷ 3 ∷ 4 ∷ 1 ∷ 1 ∷ 1 ∷ 3 ∷ 2 ∷ 1
    ∷ 0 ∷ 1 ∷ 0 ∷ 3 ∷ 3 ∷ 2 ∷ 1 ∷ 1 ∷ 1 ∷ 1 ∷ 2 ∷ 1 ∷ 1 ∷ 1 ∷ 1 ∷ 1 ∷ 1 ∷ 1 ∷ 2 ∷ 2 ∷ 3 ∷ 1 ∷ 1 ∷ 1
    ∷ 1 ∷ 2 ∷ 2 ∷ 3 ∷ 1 ∷ 1 ∷ 1 ∷ 1 ∷ 1 ∷ 1 ∷ 2 ∷ 2 ∷ 3 ∷ 1 ∷ 1 ∷ 1 ∷ 2 ∷ 1 ∷ 1 ∷ 1 ∷ 1 ∷ 1 ∷ 1 ∷ 2
    ∷ 2 ∷ 3 ∷ 2 ∷ 3 ∷ 6 ∷ 1 ∷ 1 ∷ 1 ∷ 1 ∷ 1 ∷ 1 ∷ 1 ∷ 1 ∷ 1 ∷ 1 ∷ 2 ∷ 4 ∷ 1 ∷ 1 ∷ 1 ∷ 1 ∷ 1 ∷ 1 ∷ 1
    ∷ 2 ∷ 2 ∷ 2 ∷ 1 ∷ 1 ∷ 1 ∷ 1 ∷ 1 ∷ 1 ∷ 1 ∷ 2 ∷ 1 ∷ 1 ∷ 2 ∷ 3 ∷ 1 ∷ 1 ∷ 1 ∷ 1 ∷ 1 ∷ 1 ∷ 1 ∷ 1 ∷ 1
    ∷ 1 ∷ 1 ∷ 1 ∷ 1 ∷ 2 ∷ 3 ∷ 5 ∷ 1 ∷ 1 ∷ 1 ∷ 1 ∷ 1 ∷ 1 ∷ 1 ∷ 1 ∷ 3 ∷ 1 ∷ 1 ∷ 1 ∷ 1 ∷ 1 ∷ 1 ∷ 1 ∷ 1
    ∷ 2 ∷ 6 ∷ 4 ∷ 4 ∷ 4 ∷ 4 ∷ 4 ∷ 2 ∷ 4 ∷ 4 ∷ 4 ∷ 4 ∷ 4 ∷ 4 ∷ 4 ∷ 4 ∷ 4 ∷ 4 ∷ 4 ∷ 4 ∷ 4 ∷ 4 ∷ 4 ∷ 4
    ∷ 4 ∷ 4 ∷ 4 ∷ 4 ∷ 4 ∷ 4 ∷ 4 ∷ 4 ∷ 4 ∷ 4 ∷ 2 ∷ 1 ∷ 1 ∷ 1 ∷ 2 ∷ 3 ∷ 4 ∷ 4 ∷ 4 ∷ 2 ∷ 1 ∷ 2 ∷ 4 ∷ 1
    ∷ 1 ∷ 1 ∷ 1 ∷ 1 ∷ 1 ∷ 1 ∷ 1 ∷ 1 ∷ 1 ∷ 2 ∷ 1 ∷ 1 ∷ 1 ∷ 1 ∷ 1 ∷ 2 ∷ 1 ∷ 2 ∷ 2 ∷ 3 ∷ 5 ∷ 4 ∷ 4 ∷ 4
    ∷ 4 ∷ 4 ∷ 4 ∷ 3 ∷ 6 ∷ 4 ∷ 3 ∷ 5 ∷ 3 ∷ 4 ∷ 4 ∷ 4 ∷ 1 ∷ 1 ∷ 2 ∷ 5 ∷ 1 ∷ 1 ∷ 1 ∷ 1 ∷ 1 ∷ 2 ∷ 5 ∷ 1
    ∷ 1 ∷ 1 ∷ 1 ∷ 2 ∷ 4 ∷ 1 ∷ 1 ∷ 1 ∷ 1 ∷ 1 ∷ 1 ∷ 1 ∷ 1 ∷ 1 ∷ 2 ∷ 3 ∷ 1 ∷ 1 ∷ 1 ∷ 1 ∷ 1 ∷ 1 ∷ 1 ∷ 1
    ∷ 1 ∷ 2 ∷ 3 ∷ 1 ∷ 1 ∷ 1 ∷ 1 ∷ 1 ∷ 1 ∷ 1 ∷ 1 ∷ 1 ∷ 1 ∷ 1 ∷ 1 ∷ 1 ∷ 2 ∷ 3 ∷ 1 ∷ 1 ∷ 1 ∷ 1 ∷ 1 ∷ 1
    ∷ 1 ∷ 1 ∷ 1 ∷ 1 ∷ 2 ∷ 5 ∷ 1 ∷ 1 ∷ 1 ∷ 1 ∷ 1 ∷ 1 ∷ 1 ∷ 1 ∷ 1 ∷ 1 ∷ 3 ∷ 5 ∷ 1 ∷ 1 ∷ 1 ∷ 1 ∷ 1 ∷ 1
    ∷ 1 ∷ 1 ∷ 1 ∷ 1 ∷ 1 ∷ 1 ∷ 1 ∷ 1 ∷ 2 ∷ 3 ∷ 1 ∷ 1 ∷ 1 ∷ 1 ∷ 1 ∷ 1 ∷ 1 ∷ 2 ∷ 2 ∷ 2 ∷ 3 ∷ 1 ∷ 1 ∷ 1
    ∷ 2 ∷ 2 ∷ 2 ∷ 1 ∷ 1 ∷ 1 ∷ 1 ∷ 1 ∷ 2 ∷ 3 ∷ 1 ∷ 1 ∷ 1 ∷ 2 ∷ 2 ∷ 2 ∷ 1 ∷ 1 ∷ 1 ∷ 1 ∷ 1 ∷ 1 ∷ 1 ∷ 2
    ∷ 1 ∷ 1 ∷ 1 ∷ 1 ∷ 1 ∷ 1 ∷ 1 ∷ 1 ∷ 1 ∷ 2 ∷ 2 ∷ 1 ∷ 1 ∷ 1 ∷ 1 ∷ 1 ∷ 1 ∷ 1 ∷ 1 ∷ 1 ∷ 1 ∷ 1 ∷ 1 ∷ 1
    ∷ 1 ∷ 1 ∷ 1 ∷ 1 ∷ 1 ∷ 1 ∷ 1 ∷ 1 ∷ 1 ∷ 1 ∷ 1 ∷ 1 ∷ 1 ∷ 2 ∷ 1 ∷ 1 ∷ 1 ∷ 1 ∷ 2 ∷ 1 ∷ 1 ∷ 1 ∷ 1 ∷ 1
    ∷ 1 ∷ 1 ∷ 1 ∷ 1 ∷ 1 ∷ 2 ∷ 1 ∷ 2 ∷ 3 ∷ 1 ∷ 1 ∷ 1 ∷ 1 ∷ 1 ∷ 1 ∷ 1 ∷ 1 ∷ 1 ∷ 1 ∷ 2 ∷ 1 ∷ 1 ∷ 1 ∷ 1
    ∷ 1 ∷ 1 ∷ 1 ∷ 2 ∷ 7 ∷ 4 ∷ 4 ∷ 4 ∷ 4 ∷ 2 ∷ 1 ∷ 2 ∷ 5 ∷ 1 ∷ 1 ∷ 1 ∷ 1 ∷ 1 ∷ 2 ∷ 3 ∷ 1 ∷ 1 ∷ 1 ∷ 1
    ∷ 3 ∷ 3 ∷ 1 ∷ 1 ∷ 1 ∷ 3 ∷ 2 ∷ 1 ∷ 0 ∷ 1 ∷ 0 ∷ 1 ∷ 1 ∷ 1 ∷ 1 ∷ 2 ∷ 1 ∷ 1 ∷ 1 ∷ 2 ∷ 4 ∷ 2 ∷ 1 ∷ 1
    ∷ 1 ∷ 1 ∷ 1 ∷ 1 ∷ 1 ∷ 1 ∷ 1 ∷ 1 ∷ 1 ∷ 2 ∷ 4 ∷ 1 ∷ 1 ∷ 1 ∷ 1 ∷ 1 ∷ 2 ∷ 3 ∷ 1 ∷ 1 ∷ 1 ∷ 1 ∷ 1 ∷ 1
    ∷ 1 ∷ 1 ∷ 1 ∷ 1 ∷ 1 ∷ 1 ∷ 1 ∷ 1 ∷ 1 ∷ 1 ∷ 1 ∷ 1 ∷ 1 ∷ 1 ∷ 1 ∷ 1 ∷ 1 ∷ 1 ∷ 1 ∷ 1 ∷ 1 ∷ 1 ∷ 1 ∷ 1
    ∷ 1 ∷ 1 ∷ 1 ∷ 1 ∷ 1 ∷ 1 ∷ 2 ∷ 1 ∷ 1 ∷ 2 ∷ 1 ∷ 1 ∷ 1 ∷ 1 ∷ 2 ∷ 3 ∷ 1 ∷ 3 ∷ 2 ∷ 1 ∷ 1 ∷ 1 ∷ 1 ∷ 1
    ∷ 1 ∷ 1 ∷ 1 ∷ 1 ∷ 1 ∷ 1 ∷ 1 ∷ 2 ∷ 3 ∷ 1 ∷ 1 ∷ 1 ∷ 3 ∷ 3 ∷ 1 ∷ 1 ∷ 2 ∷ 3 ∷ 1 ∷ 1 ∷ 1 ∷ 1 ∷ 1 ∷ 1
    ∷ 1 ∷ 1 ∷ 1 ∷ 1 ∷ 1 ∷ 3 ∷ 5 ∷ 1 ∷ 1 ∷ 1 ∷ 1 ∷ 1 ∷ 3 ∷ 4 ∷ 1 ∷ 1 ∷ 1 ∷ 1 ∷ 1 ∷ 1 ∷ 1 ∷ 2 ∷ 3 ∷ 0
    ∷ 1 ∷ 1 ∷ 1 ∷ 1 ∷ 1 ∷ 1 ∷ 1 ∷ 1 ∷ 1 ∷ 1 ∷ 1 ∷ 1 ∷ 1 ∷ 1 ∷ 1 ∷ 1 ∷ 1 ∷ 1 ∷ 1 ∷ 1 ∷ 1 ∷ 1 ∷ 1 ∷ 2
    ∷ 1 ∷ 1 ∷ 1 ∷ 1 ∷ 2 ∷ 3 ∷ 1 ∷ 1 ∷ 1 ∷ 1 ∷ 1 ∷ 1 ∷ 1 ∷ 1 ∷ 1 ∷ 1 ∷ 1 ∷ 1 ∷ 1 ∷ 3 ∷ 1 ∷ 1 ∷ 2 ∷ 3
    ∷ 0 ∷ 3 ∷ 1 ∷ 1 ∷ 1 ∷ 1 ∷ 1 ∷ 1 ∷ 1 ∷ 1 ∷ 2 ∷ 2 ∷ 1 ∷ 2 ∷ 3 ∷ 1 ∷ 1 ∷ 1 ∷ 1 ∷ 1 ∷ 1 ∷ 1 ∷ 1 ∷ 1
    ∷ 0 ∷ []

abbrev pub syntax_range_lengths : List ℕ
syntax_range_lengths =
    0 ∷ 0 ∷ 0 ∷ 0 ∷ 0 ∷ 0 ∷ 1 ∷ 1 ∷ 1 ∷ 1 ∷ 1 ∷ 1 ∷ 1 ∷ 1 ∷ 1 ∷ 1 ∷ 0 ∷ 0 ∷ 0 ∷ 0 ∷ 0 ∷ 0 ∷ 0 ∷ 0
    ∷ 0 ∷ 0 ∷ 0 ∷ 0 ∷ 0 ∷ 0 ∷ 0 ∷ 1 ∷ 1 ∷ 1 ∷ 0 ∷ 0 ∷ 0 ∷ 0 ∷ 0 ∷ 0 ∷ 0 ∷ 0 ∷ 0 ∷ 1 ∷ 1 ∷ 0 ∷ 0 ∷ 0
    ∷ 0 ∷ 0 ∷ 0 ∷ 0 ∷ 0 ∷ 0 ∷ 0 ∷ 0 ∷ 0 ∷ 0 ∷ 0 ∷ 0 ∷ 0 ∷ 0 ∷ 0 ∷ 0 ∷ 0 ∷ 0 ∷ 0 ∷ 0 ∷ 1 ∷ 1 ∷ 1 ∷ 0
    ∷ 0 ∷ 0 ∷ 0 ∷ 0 ∷ 0 ∷ 0 ∷ 0 ∷ 0 ∷ 0 ∷ 0 ∷ 1 ∷ 1 ∷ 1 ∷ 1 ∷ 1 ∷ 1 ∷ 0 ∷ 0 ∷ 0 ∷ 1 ∷ 1 ∷ 1 ∷ 1 ∷ 1
    ∷ 1 ∷ 0 ∷ 0 ∷ 0 ∷ 0 ∷ 0 ∷ 0 ∷ 0 ∷ 0 ∷ 0 ∷ 0 ∷ 0 ∷ 0 ∷ 0 ∷ 0 ∷ 0 ∷ 0 ∷ 0 ∷ 0 ∷ 0 ∷ 0 ∷ 0 ∷ 1 ∷ 1
    ∷ 1 ∷ 1 ∷ 1 ∷ 1 ∷ 0 ∷ 0 ∷ 0 ∷ 0 ∷ 0 ∷ 0 ∷ 0 ∷ 0 ∷ 0 ∷ 0 ∷ 0 ∷ 0 ∷ 0 ∷ 0 ∷ 0 ∷ 1 ∷ 1 ∷ 0 ∷ 0 ∷ 0
    ∷ 0 ∷ 0 ∷ 1 ∷ 1 ∷ 0 ∷ 0 ∷ 0 ∷ 0 ∷ 0 ∷ 0 ∷ 0 ∷ 1 ∷ 1 ∷ 0 ∷ 0 ∷ 0 ∷ 0 ∷ 0 ∷ 0 ∷ 0 ∷ 0 ∷ 0 ∷ 0 ∷ 0
    ∷ 1 ∷ 1 ∷ 1 ∷ 0 ∷ 0 ∷ 0 ∷ 0 ∷ 0 ∷ 0 ∷ 0 ∷ 0 ∷ 0 ∷ 0 ∷ 0 ∷ 0 ∷ 0 ∷ 0 ∷ 0 ∷ 0 ∷ 0 ∷ 0 ∷ 0 ∷ 0 ∷ 0
    ∷ 0 ∷ 1 ∷ 1 ∷ 0 ∷ 0 ∷ 0 ∷ 0 ∷ 0 ∷ 0 ∷ 0 ∷ 0 ∷ 0 ∷ 0 ∷ 0 ∷ 0 ∷ 0 ∷ 0 ∷ 0 ∷ 0 ∷ 0 ∷ 0 ∷ 0 ∷ 0 ∷ 0
    ∷ 0 ∷ 0 ∷ 0 ∷ 0 ∷ 0 ∷ 3 ∷ 3 ∷ 0 ∷ 0 ∷ 0 ∷ 0 ∷ 0 ∷ 0 ∷ 0 ∷ 0 ∷ 0 ∷ 0 ∷ 0 ∷ 0 ∷ 0 ∷ 0 ∷ 0 ∷ 0 ∷ 0
    ∷ 0 ∷ 1 ∷ 1 ∷ 1 ∷ 1 ∷ 1 ∷ 1 ∷ 1 ∷ 1 ∷ 1 ∷ 1 ∷ 1 ∷ 1 ∷ 1 ∷ 1 ∷ 1 ∷ 1 ∷ 1 ∷ 1 ∷ 1 ∷ 1 ∷ 1 ∷ 1 ∷ 1
    ∷ 1 ∷ 1 ∷ 1 ∷ 1 ∷ 1 ∷ 1 ∷ 1 ∷ 1 ∷ 1 ∷ 1 ∷ 1 ∷ 0 ∷ 0 ∷ 0 ∷ 0 ∷ 1 ∷ 1 ∷ 1 ∷ 1 ∷ 1 ∷ 0 ∷ 0 ∷ 0 ∷ 0
    ∷ 0 ∷ 0 ∷ 0 ∷ 0 ∷ 0 ∷ 0 ∷ 0 ∷ 0 ∷ 0 ∷ 0 ∷ 0 ∷ 0 ∷ 0 ∷ 0 ∷ 0 ∷ 0 ∷ 0 ∷ 0 ∷ 1 ∷ 0 ∷ 0 ∷ 0 ∷ 0 ∷ 0
    ∷ 0 ∷ 0 ∷ 0 ∷ 0 ∷ 0 ∷ 0 ∷ 0 ∷ 1 ∷ 1 ∷ 0 ∷ 0 ∷ 0 ∷ 0 ∷ 0 ∷ 0 ∷ 0 ∷ 0 ∷ 0 ∷ 0 ∷ 0 ∷ 0 ∷ 0 ∷ 0 ∷ 0
    ∷ 0 ∷ 0 ∷ 0 ∷ 0 ∷ 0 ∷ 0 ∷ 0 ∷ 0 ∷ 0 ∷ 0 ∷ 0 ∷ 0 ∷ 0 ∷ 0 ∷ 0 ∷ 0 ∷ 0 ∷ 0 ∷ 0 ∷ 0 ∷ 0 ∷ 0 ∷ 0 ∷ 0
    ∷ 0 ∷ 0 ∷ 0 ∷ 0 ∷ 0 ∷ 0 ∷ 0 ∷ 0 ∷ 0 ∷ 0 ∷ 0 ∷ 0 ∷ 0 ∷ 0 ∷ 0 ∷ 0 ∷ 0 ∷ 0 ∷ 0 ∷ 0 ∷ 0 ∷ 0 ∷ 0 ∷ 0
    ∷ 0 ∷ 0 ∷ 0 ∷ 0 ∷ 0 ∷ 0 ∷ 0 ∷ 0 ∷ 0 ∷ 0 ∷ 0 ∷ 0 ∷ 0 ∷ 0 ∷ 0 ∷ 0 ∷ 0 ∷ 0 ∷ 0 ∷ 0 ∷ 0 ∷ 0 ∷ 0 ∷ 0
    ∷ 0 ∷ 0 ∷ 0 ∷ 0 ∷ 0 ∷ 0 ∷ 0 ∷ 0 ∷ 0 ∷ 0 ∷ 0 ∷ 0 ∷ 0 ∷ 0 ∷ 0 ∷ 0 ∷ 0 ∷ 0 ∷ 1 ∷ 1 ∷ 0 ∷ 0 ∷ 0 ∷ 0
    ∷ 0 ∷ 1 ∷ 1 ∷ 0 ∷ 0 ∷ 0 ∷ 0 ∷ 0 ∷ 0 ∷ 0 ∷ 0 ∷ 0 ∷ 0 ∷ 0 ∷ 1 ∷ 1 ∷ 0 ∷ 0 ∷ 0 ∷ 0 ∷ 0 ∷ 0 ∷ 0 ∷ 0
    ∷ 0 ∷ 0 ∷ 0 ∷ 0 ∷ 0 ∷ 0 ∷ 0 ∷ 0 ∷ 0 ∷ 0 ∷ 0 ∷ 0 ∷ 0 ∷ 0 ∷ 0 ∷ 0 ∷ 0 ∷ 0 ∷ 0 ∷ 0 ∷ 0 ∷ 0 ∷ 0 ∷ 0
    ∷ 0 ∷ 0 ∷ 0 ∷ 0 ∷ 0 ∷ 0 ∷ 0 ∷ 0 ∷ 0 ∷ 0 ∷ 0 ∷ 0 ∷ 0 ∷ 0 ∷ 0 ∷ 0 ∷ 0 ∷ 0 ∷ 0 ∷ 0 ∷ 0 ∷ 0 ∷ 0 ∷ 0
    ∷ 0 ∷ 0 ∷ 0 ∷ 0 ∷ 0 ∷ 0 ∷ 0 ∷ 0 ∷ 0 ∷ 0 ∷ 0 ∷ 0 ∷ 0 ∷ 0 ∷ 0 ∷ 0 ∷ 0 ∷ 0 ∷ 0 ∷ 0 ∷ 0 ∷ 0 ∷ 0 ∷ 0
    ∷ 0 ∷ 0 ∷ 0 ∷ 0 ∷ 1 ∷ 1 ∷ 1 ∷ 1 ∷ 1 ∷ 1 ∷ 0 ∷ 0 ∷ 0 ∷ 0 ∷ 0 ∷ 0 ∷ 0 ∷ 0 ∷ 0 ∷ 0 ∷ 0 ∷ 0 ∷ 0 ∷ 0
    ∷ 0 ∷ 0 ∷ 0 ∷ 0 ∷ 0 ∷ 0 ∷ 1 ∷ 1 ∷ 1 ∷ 1 ∷ 1 ∷ 1 ∷ 0 ∷ 0 ∷ 0 ∷ 0 ∷ 0 ∷ 0 ∷ 0 ∷ 0 ∷ 0 ∷ 0 ∷ 0 ∷ 0
    ∷ 0 ∷ 0 ∷ 0 ∷ 0 ∷ 0 ∷ 0 ∷ 0 ∷ 0 ∷ 0 ∷ 0 ∷ 0 ∷ 0 ∷ 0 ∷ 0 ∷ 0 ∷ 0 ∷ 0 ∷ 0 ∷ 0 ∷ 0 ∷ 0 ∷ 0 ∷ 0 ∷ 0
    ∷ 0 ∷ 0 ∷ 0 ∷ 0 ∷ 0 ∷ 0 ∷ 0 ∷ 0 ∷ 0 ∷ 0 ∷ 0 ∷ 0 ∷ 0 ∷ 0 ∷ 0 ∷ 0 ∷ 0 ∷ 0 ∷ 0 ∷ 0 ∷ 0 ∷ 0 ∷ 0 ∷ 0
    ∷ 0 ∷ 0 ∷ 0 ∷ 0 ∷ 0 ∷ 0 ∷ 0 ∷ 0 ∷ 0 ∷ 0 ∷ 0 ∷ 0 ∷ 0 ∷ 0 ∷ 0 ∷ 0 ∷ 0 ∷ 0 ∷ 0 ∷ 0 ∷ 0 ∷ 0 ∷ 0 ∷ 0
    ∷ 0 ∷ 0 ∷ 0 ∷ 0 ∷ 0 ∷ 0 ∷ 0 ∷ 0 ∷ 0 ∷ 0 ∷ 0 ∷ 0 ∷ 0 ∷ 0 ∷ 0 ∷ 0 ∷ 0 ∷ 0 ∷ 0 ∷ 0 ∷ 0 ∷ 0 ∷ 0 ∷ 0
    ∷ 0 ∷ 0 ∷ 0 ∷ 0 ∷ 0 ∷ 0 ∷ 0 ∷ 0 ∷ 0 ∷ 0 ∷ 0 ∷ 0 ∷ 0 ∷ 0 ∷ 0 ∷ 0 ∷ 0 ∷ 0 ∷ 0 ∷ 0 ∷ 0 ∷ 0 ∷ 1 ∷ 1
    ∷ 1 ∷ 0 ∷ 0 ∷ 0 ∷ 0 ∷ 0 ∷ 0 ∷ 0 ∷ 0 ∷ 0 ∷ 0 ∷ 0 ∷ 0 ∷ 0 ∷ 0 ∷ 0 ∷ 0 ∷ 0 ∷ 0 ∷ 0 ∷ 0 ∷ 0 ∷ 0 ∷ 0
    ∷ 0 ∷ 0 ∷ 0 ∷ 0 ∷ 0 ∷ 0 ∷ 0 ∷ 0 ∷ 0 ∷ 0 ∷ 0 ∷ 0 ∷ 0 ∷ 0 ∷ 0 ∷ 0 ∷ 0 ∷ 0 ∷ 0 ∷ 0 ∷ 0 ∷ 0 ∷ 0 ∷ 1
    ∷ 1 ∷ 1 ∷ 0 ∷ 0 ∷ 0 ∷ 0 ∷ 0 ∷ 0 ∷ 0 ∷ 0 ∷ 0 ∷ 1 ∷ 0 ∷ 0 ∷ 0 ∷ 0 ∷ 0 ∷ 0 ∷ 0 ∷ 0 ∷ 0 ∷ 0 ∷ 0 ∷ 0
    ∷ 0 ∷ []

abbrev pub syntax_index_offsets : List ℕ
syntax_index_offsets =
    0 ∷ 0 ∷ 15 ∷ 17 ∷ 19 ∷ 21 ∷ 24 ∷ 28 ∷ 34 ∷ 38 ∷ 43 ∷ 45 ∷ 48 ∷ 50 ∷ 53 ∷ 55 ∷ 60 ∷ 62 ∷ 64 ∷ 66
    ∷ 68 ∷ 70 ∷ 72 ∷ 74 ∷ 76 ∷ 79 ∷ 83 ∷ 85 ∷ 87 ∷ 89 ∷ 91 ∷ 94 ∷ 99 ∷ 101 ∷ 106 ∷ 113 ∷ 115 ∷ 117
    ∷ 119 ∷ 123 ∷ 128 ∷ 130 ∷ 132 ∷ 136 ∷ 140 ∷ 145 ∷ 147 ∷ 149 ∷ 151 ∷ 153 ∷ 155 ∷ 157 ∷ 159 ∷ 161
    ∷ 164 ∷ 166 ∷ 168 ∷ 170 ∷ 172 ∷ 174 ∷ 176 ∷ 178 ∷ 180 ∷ 182 ∷ 184 ∷ 186 ∷ 188 ∷ 190 ∷ 193 ∷ 198
    ∷ 200 ∷ 203 ∷ 205 ∷ 207 ∷ 209 ∷ 211 ∷ 213 ∷ 217 ∷ 221 ∷ 223 ∷ 225 ∷ 227 ∷ 231 ∷ 235 ∷ 238 ∷ 240
    ∷ 243 ∷ 245 ∷ 250 ∷ 255 ∷ 257 ∷ 260 ∷ 264 ∷ 267 ∷ 269 ∷ 272 ∷ 274 ∷ 279 ∷ 281 ∷ 283 ∷ 285 ∷ 288
    ∷ 291 ∷ 294 ∷ 296 ∷ 298 ∷ 300 ∷ 303 ∷ 307 ∷ 309 ∷ 311 ∷ 313 ∷ 315 ∷ 319 ∷ 324 ∷ 326 ∷ 328 ∷ 330
    ∷ 334 ∷ 338 ∷ 341 ∷ 343 ∷ 346 ∷ 348 ∷ 353 ∷ 357 ∷ 360 ∷ 362 ∷ 364 ∷ 366 ∷ 368 ∷ 371 ∷ 373 ∷ 375
    ∷ 377 ∷ 379 ∷ 381 ∷ 383 ∷ 385 ∷ 388 ∷ 392 ∷ 397 ∷ 399 ∷ 401 ∷ 403 ∷ 405 ∷ 408 ∷ 412 ∷ 417 ∷ 419
    ∷ 421 ∷ 423 ∷ 425 ∷ 427 ∷ 429 ∷ 432 ∷ 436 ∷ 441 ∷ 443 ∷ 445 ∷ 447 ∷ 450 ∷ 452 ∷ 454 ∷ 456 ∷ 458
    ∷ 460 ∷ 462 ∷ 465 ∷ 469 ∷ 474 ∷ 478 ∷ 482 ∷ 489 ∷ 491 ∷ 493 ∷ 495 ∷ 497 ∷ 499 ∷ 501 ∷ 503 ∷ 505
    ∷ 507 ∷ 509 ∷ 512 ∷ 517 ∷ 519 ∷ 521 ∷ 523 ∷ 525 ∷ 527 ∷ 529 ∷ 531 ∷ 534 ∷ 538 ∷ 542 ∷ 544 ∷ 546
    ∷ 548 ∷ 550 ∷ 552 ∷ 554 ∷ 556 ∷ 559 ∷ 561 ∷ 563 ∷ 566 ∷ 570 ∷ 572 ∷ 574 ∷ 576 ∷ 578 ∷ 580 ∷ 582
    ∷ 584 ∷ 586 ∷ 588 ∷ 590 ∷ 592 ∷ 594 ∷ 596 ∷ 599 ∷ 606 ∷ 615 ∷ 617 ∷ 619 ∷ 621 ∷ 623 ∷ 625 ∷ 627
    ∷ 629 ∷ 631 ∷ 635 ∷ 637 ∷ 639 ∷ 641 ∷ 643 ∷ 645 ∷ 647 ∷ 649 ∷ 651 ∷ 654 ∷ 662 ∷ 668 ∷ 674 ∷ 680
    ∷ 686 ∷ 692 ∷ 696 ∷ 702 ∷ 708 ∷ 714 ∷ 720 ∷ 726 ∷ 732 ∷ 738 ∷ 744 ∷ 750 ∷ 756 ∷ 762 ∷ 768 ∷ 774
    ∷ 780 ∷ 786 ∷ 792 ∷ 798 ∷ 804 ∷ 810 ∷ 816 ∷ 822 ∷ 828 ∷ 834 ∷ 840 ∷ 846 ∷ 852 ∷ 856 ∷ 858 ∷ 860
    ∷ 862 ∷ 865 ∷ 870 ∷ 876 ∷ 882 ∷ 888 ∷ 892 ∷ 894 ∷ 897 ∷ 902 ∷ 904 ∷ 906 ∷ 908 ∷ 910 ∷ 912 ∷ 914
    ∷ 916 ∷ 918 ∷ 920 ∷ 922 ∷ 925 ∷ 927 ∷ 929 ∷ 931 ∷ 933 ∷ 935 ∷ 938 ∷ 940 ∷ 943 ∷ 947 ∷ 951 ∷ 957
    ∷ 962 ∷ 967 ∷ 972 ∷ 977 ∷ 982 ∷ 987 ∷ 991 ∷ 998 ∷ 1003 ∷ 1007 ∷ 1014 ∷ 1019 ∷ 1024 ∷ 1029 ∷ 1034
    ∷ 1036 ∷ 1038 ∷ 1041 ∷ 1047 ∷ 1049 ∷ 1051 ∷ 1053 ∷ 1055 ∷ 1057 ∷ 1060 ∷ 1066 ∷ 1068 ∷ 1070
    ∷ 1072 ∷ 1074 ∷ 1077 ∷ 1082 ∷ 1084 ∷ 1086 ∷ 1088 ∷ 1090 ∷ 1092 ∷ 1094 ∷ 1096 ∷ 1098 ∷ 1100
    ∷ 1103 ∷ 1107 ∷ 1109 ∷ 1111 ∷ 1113 ∷ 1115 ∷ 1117 ∷ 1119 ∷ 1121 ∷ 1123 ∷ 1125 ∷ 1128 ∷ 1132
    ∷ 1134 ∷ 1136 ∷ 1138 ∷ 1140 ∷ 1142 ∷ 1144 ∷ 1146 ∷ 1148 ∷ 1150 ∷ 1152 ∷ 1154 ∷ 1156 ∷ 1158
    ∷ 1161 ∷ 1165 ∷ 1167 ∷ 1169 ∷ 1171 ∷ 1173 ∷ 1175 ∷ 1177 ∷ 1179 ∷ 1181 ∷ 1183 ∷ 1185 ∷ 1188
    ∷ 1194 ∷ 1196 ∷ 1198 ∷ 1200 ∷ 1202 ∷ 1204 ∷ 1206 ∷ 1208 ∷ 1210 ∷ 1212 ∷ 1214 ∷ 1218 ∷ 1224
    ∷ 1226 ∷ 1228 ∷ 1230 ∷ 1232 ∷ 1234 ∷ 1236 ∷ 1238 ∷ 1240 ∷ 1242 ∷ 1244 ∷ 1246 ∷ 1248 ∷ 1250
    ∷ 1252 ∷ 1255 ∷ 1259 ∷ 1261 ∷ 1263 ∷ 1265 ∷ 1267 ∷ 1269 ∷ 1271 ∷ 1273 ∷ 1276 ∷ 1280 ∷ 1284
    ∷ 1288 ∷ 1290 ∷ 1292 ∷ 1294 ∷ 1297 ∷ 1301 ∷ 1305 ∷ 1307 ∷ 1309 ∷ 1311 ∷ 1313 ∷ 1315 ∷ 1318
    ∷ 1322 ∷ 1324 ∷ 1326 ∷ 1328 ∷ 1331 ∷ 1335 ∷ 1339 ∷ 1341 ∷ 1343 ∷ 1345 ∷ 1347 ∷ 1349 ∷ 1351
    ∷ 1353 ∷ 1356 ∷ 1358 ∷ 1360 ∷ 1362 ∷ 1364 ∷ 1366 ∷ 1368 ∷ 1370 ∷ 1372 ∷ 1374 ∷ 1377 ∷ 1380
    ∷ 1382 ∷ 1384 ∷ 1386 ∷ 1388 ∷ 1390 ∷ 1392 ∷ 1394 ∷ 1396 ∷ 1398 ∷ 1400 ∷ 1402 ∷ 1404 ∷ 1406
    ∷ 1408 ∷ 1410 ∷ 1412 ∷ 1414 ∷ 1416 ∷ 1418 ∷ 1420 ∷ 1422 ∷ 1424 ∷ 1426 ∷ 1428 ∷ 1430 ∷ 1432
    ∷ 1435 ∷ 1437 ∷ 1439 ∷ 1441 ∷ 1443 ∷ 1446 ∷ 1448 ∷ 1450 ∷ 1452 ∷ 1454 ∷ 1456 ∷ 1458 ∷ 1460
    ∷ 1462 ∷ 1464 ∷ 1466 ∷ 1469 ∷ 1471 ∷ 1474 ∷ 1478 ∷ 1480 ∷ 1482 ∷ 1484 ∷ 1486 ∷ 1488 ∷ 1490
    ∷ 1492 ∷ 1494 ∷ 1496 ∷ 1498 ∷ 1501 ∷ 1503 ∷ 1505 ∷ 1507 ∷ 1509 ∷ 1511 ∷ 1513 ∷ 1515 ∷ 1518
    ∷ 1527 ∷ 1533 ∷ 1539 ∷ 1545 ∷ 1551 ∷ 1555 ∷ 1557 ∷ 1560 ∷ 1566 ∷ 1568 ∷ 1570 ∷ 1572 ∷ 1574
    ∷ 1576 ∷ 1579 ∷ 1583 ∷ 1585 ∷ 1587 ∷ 1589 ∷ 1591 ∷ 1595 ∷ 1599 ∷ 1601 ∷ 1603 ∷ 1605 ∷ 1609
    ∷ 1613 ∷ 1616 ∷ 1618 ∷ 1621 ∷ 1623 ∷ 1626 ∷ 1628 ∷ 1630 ∷ 1632 ∷ 1635 ∷ 1637 ∷ 1639 ∷ 1641
    ∷ 1644 ∷ 1649 ∷ 1652 ∷ 1654 ∷ 1656 ∷ 1658 ∷ 1660 ∷ 1662 ∷ 1664 ∷ 1666 ∷ 1668 ∷ 1670 ∷ 1672
    ∷ 1674 ∷ 1677 ∷ 1682 ∷ 1684 ∷ 1686 ∷ 1688 ∷ 1690 ∷ 1692 ∷ 1695 ∷ 1699 ∷ 1701 ∷ 1703 ∷ 1705
    ∷ 1707 ∷ 1709 ∷ 1711 ∷ 1713 ∷ 1715 ∷ 1717 ∷ 1719 ∷ 1721 ∷ 1723 ∷ 1725 ∷ 1727 ∷ 1729 ∷ 1731
    ∷ 1733 ∷ 1735 ∷ 1737 ∷ 1739 ∷ 1741 ∷ 1743 ∷ 1745 ∷ 1747 ∷ 1749 ∷ 1751 ∷ 1753 ∷ 1755 ∷ 1757
    ∷ 1759 ∷ 1761 ∷ 1763 ∷ 1765 ∷ 1767 ∷ 1769 ∷ 1771 ∷ 1774 ∷ 1776 ∷ 1778 ∷ 1781 ∷ 1783 ∷ 1785
    ∷ 1787 ∷ 1789 ∷ 1792 ∷ 1796 ∷ 1798 ∷ 1802 ∷ 1805 ∷ 1807 ∷ 1809 ∷ 1811 ∷ 1813 ∷ 1815 ∷ 1817
    ∷ 1819 ∷ 1821 ∷ 1823 ∷ 1825 ∷ 1827 ∷ 1829 ∷ 1832 ∷ 1836 ∷ 1838 ∷ 1840 ∷ 1842 ∷ 1846 ∷ 1850
    ∷ 1852 ∷ 1854 ∷ 1857 ∷ 1861 ∷ 1863 ∷ 1865 ∷ 1867 ∷ 1869 ∷ 1871 ∷ 1873 ∷ 1875 ∷ 1877 ∷ 1879
    ∷ 1881 ∷ 1883 ∷ 1887 ∷ 1893 ∷ 1895 ∷ 1897 ∷ 1899 ∷ 1901 ∷ 1903 ∷ 1907 ∷ 1912 ∷ 1914 ∷ 1916
    ∷ 1918 ∷ 1920 ∷ 1922 ∷ 1924 ∷ 1926 ∷ 1929 ∷ 1934 ∷ 1936 ∷ 1939 ∷ 1941 ∷ 1943 ∷ 1945 ∷ 1947
    ∷ 1949 ∷ 1951 ∷ 1953 ∷ 1955 ∷ 1957 ∷ 1959 ∷ 1961 ∷ 1963 ∷ 1965 ∷ 1967 ∷ 1969 ∷ 1971 ∷ 1973
    ∷ 1975 ∷ 1977 ∷ 1979 ∷ 1981 ∷ 1983 ∷ 1986 ∷ 1988 ∷ 1990 ∷ 1992 ∷ 1994 ∷ 1997 ∷ 2001 ∷ 2003
    ∷ 2005 ∷ 2007 ∷ 2009 ∷ 2011 ∷ 2013 ∷ 2015 ∷ 2017 ∷ 2019 ∷ 2021 ∷ 2023 ∷ 2025 ∷ 2027 ∷ 2031
    ∷ 2033 ∷ 2035 ∷ 2038 ∷ 2043 ∷ 2045 ∷ 2050 ∷ 2052 ∷ 2054 ∷ 2056 ∷ 2058 ∷ 2060 ∷ 2062 ∷ 2064
    ∷ 2066 ∷ 2069 ∷ 2073 ∷ 2075 ∷ 2078 ∷ 2082 ∷ 2084 ∷ 2086 ∷ 2088 ∷ 2090 ∷ 2092 ∷ 2094 ∷ 2096
    ∷ 2098 ∷ 2100 ∷ []
