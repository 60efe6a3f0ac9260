-- ===== src/Wire/EMsg.antt =====
-- `EMsg` of src/steam_network/protocol/consts.py: the numbers of the messages, and which numbers are
-- members of the enum.
use galaxy_integration_steam.Prelude.{ℕ, Bool, ◌&&◌, List, [], ◌∷◌, leb, any}

abbrev pub multi : ℕ
multi = 1

abbrev pub service_method : ℕ
service_method = 146

abbrev pub service_method_response : ℕ
service_method_response = 147

abbrev pub service_method_call_from_client : ℕ
service_method_call_from_client = 151

abbrev pub service_method_call_from_client_non_authed : ℕ
service_method_call_from_client_non_authed = 9804

abbrev pub client_log_on_response : ℕ
client_log_on_response = 751

abbrev pub client_logged_off : ℕ
client_logged_off = 757

abbrev pub client_persona_state : ℕ
client_persona_state = 766

abbrev pub client_friends_list : ℕ
client_friends_list = 767

abbrev pub client_account_info : ℕ
client_account_info = 768

abbrev pub client_license_list : ℕ
client_license_list = 780

abbrev pub client_get_user_stats_response : ℕ
client_get_user_stats_response = 819

abbrev pub client_player_nickname_list : ℕ
client_player_nickname_list = 5587

abbrev pub client_pics_product_info_response : ℕ
client_pics_product_info_response = 8904

abbrev pub client_heart_beat : ℕ
client_heart_beat = 703

abbrev pub client_log_off : ℕ
client_log_off = 706

abbrev pub client_change_status : ℕ
client_change_status = 716

abbrev pub client_request_friend_data : ℕ
client_request_friend_data = 815

abbrev pub client_get_user_stats : ℕ
client_get_user_stats = 818

abbrev pub client_logon : ℕ
client_logon = 5514

abbrev pub client_update_machine_auth_response : ℕ
client_update_machine_auth_response = 5538

abbrev pub client_pics_product_info_request : ℕ
client_pics_product_info_request = 8903

abbrev pub client_hello : ℕ
client_hello = 9805

-- The values of the members, as the runs of consecutive numbers that they form, ends included.
abbrev runs : List (ℕ × ℕ)
runs =
    (0, 2)
    ∷ (100, 100)
    ∷ (113, 113)
    ∷ (115, 115)
    ∷ (120, 121)
    ∷ (123, 124)
    ∷ (126, 127)
    ∷ (129, 137)
    ∷ (139, 152)
    ∷ (200, 205)
    ∷ (215, 215)
    ∷ (221, 221)
    ∷ (225, 230)
    ∷ (233, 238)
    ∷ (240, 247)
    ∷ (300, 301)
    ∷ (307, 309)
    ∷ (316, 327)
    ∷ (329, 340)
    ∷ (400, 400)
    ∷ (402, 406)
    ∷ (408, 416)
    ∷ (423, 426)
    ∷ (429, 433)
    ∷ (500, 500)
    ∷ (504, 505)
    ∷ (508, 519)
    ∷ (521, 542)
    ∷ (550, 555)
    ∷ (560, 561)
    ∷ (563, 584)
    ∷ (586, 593)
    ∷ (596, 598)
    ∷ (600, 602)
    ∷ (604, 611)
    ∷ (625, 625)
    ∷ (628, 631)
    ∷ (633, 646)
    ∷ (650, 650)
    ∷ (700, 700)
    ∷ (703, 704)
    ∷ (706, 708)
    ∷ (710, 710)
    ∷ (712, 712)
    ∷ (714, 718)
    ∷ (726, 728)
    ∷ (730, 730)
    ∷ (732, 732)
    ∷ (736, 736)
    ∷ (740, 747)
    ∷ (751, 751)
    ∷ (755, 755)
    ∷ (757, 761)
    ∷ (763, 768)
    ∷ (771, 771)
    ∷ (773, 774)
    ∷ (779, 780)
    ∷ (782, 785)
    ∷ (791, 792)
    ∷ (796, 802)
    ∷ (805, 805)
    ∷ (807, 810)
    ∷ (813, 815)
    ∷ (818, 822)
    ∷ (830, 832)
    ∷ (839, 839)
    ∷ (842, 842)
    ∷ (845, 846)
    ∷ (848, 851)
    ∷ (855, 858)
    ∷ (860, 860)
    ∷ (880, 880)
    ∷ (891, 892)
    ∷ (896, 897)
    ∷ (900, 901)
    ∷ (903, 903)
    ∷ (905, 911)
    ∷ (918, 923)
    ∷ (936, 941)
    ∷ (1000, 1000)
    ∷ (1004, 1006)
    ∷ (1010, 1010)
    ∷ (1019, 1020)
    ∷ (1023, 1028)
    ∷ (1100, 1112)
    ∷ (1114, 1134)
    ∷ (1200, 1204)
    ∷ (1300, 1305)
    ∷ (1400, 1404)
    ∷ (1406, 1406)
    ∷ (1408, 1411)
    ∷ (1417, 1418)
    ∷ (1421, 1422)
    ∷ (1425, 1427)
    ∷ (1431, 1435)
    ∷ (1437, 1438)
    ∷ (1440, 1441)
    ∷ (1445, 1446)
    ∷ (1448, 1465)
    ∷ (1468, 1519)
    ∷ (1600, 1601)
    ∷ (1603, 1608)
    ∷ (1610, 1617)
    ∷ (1619, 1631)
    ∷ (1700, 1705)
    ∷ (2200, 2200)
    ∷ (2203, 2203)
    ∷ (2206, 2210)
    ∷ (2212, 2213)
    ∷ (2216, 2216)
    ∷ (2219, 2247)
    ∷ (2500, 2500)
    ∷ (2502, 2502)
    ∷ (2900, 2900)
    ∷ (2902, 2908)
    ∷ (3000, 3002)
    ∷ (3100, 3100)
    ∷ (3150, 3150)
    ∷ (3161, 3162)
    ∷ (3200, 3214)
    ∷ (3400, 3404)
    ∷ (3406, 3406)
    ∷ (3600, 3604)
    ∷ (3607, 3626)
    ∷ (3628, 3631)
    ∷ (4000, 4002)
    ∷ (4005, 4026)
    ∷ (4039, 4057)
    ∷ (4059, 4087)
    ∷ (4090, 4093)
    ∷ (4095, 4135)
    ∷ (4140, 4140)
    ∷ (4143, 4145)
    ∷ (4147, 4149)
    ∷ (4152, 4153)
    ∷ (4155, 4166)
    ∷ (4172, 4175)
    ∷ (4184, 4185)
    ∷ (4190, 4191)
    ∷ (4194, 4195)
    ∷ (4197, 4199)
    ∷ (4206, 4206)
    ∷ (4209, 4213)
    ∷ (4216, 4216)
    ∷ (4219, 4220)
    ∷ (4222, 4224)
    ∷ (4231, 4232)
    ∷ (4236, 4236)
    ∷ (4241, 4242)
    ∷ (4244, 4252)
    ∷ (4255, 4256)
    ∷ (4258, 4272)
    ∷ (4276, 4290)
    ∷ (4294, 4295)
    ∷ (4298, 4302)
    ∷ (4305, 4305)
    ∷ (4307, 4317)
    ∷ (4320, 4342)
    ∷ (4344, 4368)
    ∷ (4372, 4425)
    ∷ (5000, 5012)
    ∷ (5200, 5200)
    ∷ (5202, 5207)
    ∷ (5210, 5220)
    ∷ (5226, 5254)
    ∷ (5400, 5408)
    ∷ (5410, 5419)
    ∷ (5426, 5427)
    ∷ (5429, 5435)
    ∷ (5438, 5440)
    ∷ (5443, 5446)
    ∷ (5448, 5461)
    ∷ (5463, 5464)
    ∷ (5466, 5470)
    ∷ (5480, 5498)
    ∷ (5500, 5512)
    ∷ (5514, 5532)
    ∷ (5535, 5578)
    ∷ (5581, 5627)
    ∷ (5800, 5800)
    ∷ (5812, 5813)
    ∷ (5827, 5834)
    ∷ (5836, 5837)
    ∷ (5844, 5844)
    ∷ (5847, 5849)
    ∷ (6200, 6202)
    ∷ (6400, 6401)
    ∷ (6403, 6407)
    ∷ (6500, 6509)
    ∷ (6600, 6629)
    ∷ (6800, 6815)
    ∷ (7000, 7007)
    ∷ (7100, 7101)
    ∷ (7200, 7200)
    ∷ (7300, 7302)
    ∷ (7307, 7312)
    ∷ (7315, 7318)
    ∷ (7321, 7322)
    ∷ (7325, 7333)
    ∷ (7337, 7344)
    ∷ (7347, 7356)
    ∷ (7359, 7361)
    ∷ (7364, 7371)
    ∷ (7378, 7385)
    ∷ (7500, 7530)
    ∷ (7600, 7607)
    ∷ (7700, 7708)
    ∷ (7711, 7714)
    ∷ (7800, 7801)
    ∷ (7803, 7808)
    ∷ (7900, 7902)
    ∷ (8000, 8000)
    ∷ (8100, 8108)
    ∷ (8200, 8200)
    ∷ (8300, 8301)
    ∷ (8303, 8306)
    ∷ (8400, 8402)
    ∷ (8500, 8500)
    ∷ (8503, 8504)
    ∷ (8507, 8513)
    ∷ (8600, 8601)
    ∷ (8700, 8701)
    ∷ (8800, 8800)
    ∷ (8900, 8906)
    ∷ (9000, 9002)
    ∷ (9100, 9107)
    ∷ (9110, 9133)
    ∷ (9200, 9203)
    ∷ (9300, 9300)
    ∷ (9330, 9331)
    ∷ (9400, 9402)
    ∷ (9405, 9408)
    ∷ (9500, 9516)
    ∷ (9600, 9601)
    ∷ (9700, 9704)
    ∷ (9800, 9807)
    ∷ (9900, 9903)
    ∷ (9999, 10000)
    ∷ (10100, 10106)
    ∷ (12000, 12001)
    ∷ (12100, 12100)
    ∷ []

-- `EMsg(n)` raises `ValueError` unless this holds.
unfoldable pub is_member : ℕ → Bool
is_member n = any (λ r. leb r.0 n && leb n r.1) runs
