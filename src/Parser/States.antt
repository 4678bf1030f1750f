-- ===== src/Parser/States.antt =====
-- The sets and the map about single states in src/CDCMessageParser.cpp: the finite and the
-- special states, the SPI modes, and the message type of each state. The array of the upload and
-- download states has 14 elements and is read as if it had 17: what stands behind it in memory is
-- the parameter `stray`.
use clibcdc.Base.{
  Bool, List, [], contains, false, if◌then◌else◌, insert, take, true, ℕ, ◌++◌, ◌==◌, ◌∷◌,
}
use clibcdc.Types.{
  MessageType, buff_protect, crcm_err, disabled, hw_error, msg_async, msg_data_send,
  msg_download_data, msg_error, msg_mode_normal, msg_mode_program, msg_res_tr, msg_res_usb,
  msg_spi_stat, msg_switch, msg_test, msg_tr_info, msg_upload_download, msg_usb_conn, msg_usb_info,
  ready_comm, ready_debug, ready_prog, slow_mode, spi_value, suspended,
}

pub record StateInfo : Type 0 where
  pub msg_type : MessageType
  pub multi_type : Bool

abbrev pub StatesInfo : Type 0
StatesInfo = List (ℕ × StateInfo)

-- `std::set::insert`.
unfoldable pub insert_state : List ℕ → ℕ → List ℕ
unfolding contains
insert_state s a = if contains s a then s else a ∷ s

unfoldable pub insert_states : List ℕ → List ℕ → List ℕ
unfolding insert_state
insert_states s [] = s
insert_states s (a ∷ as') = insert_states (insert_state s a) as'

unfoldable pub finite_states : List ℕ
unfolding insert_states
finite_states = insert_states [] (
    5 ∷ 8 ∷ 15 ∷ 19 ∷ 23 ∷ 28 ∷ 32 ∷ 38 ∷ 42 ∷ 47 ∷ 52 ∷ 57 ∷ 103 ∷ 63 ∷ 68 ∷ 73 ∷ 78 ∷ 83 ∷ 88 ∷ 93
    ∷ 97 ∷ [])

unfoldable pub special_states : List ℕ
unfolding insert_states
special_states = insert_states [] (17 ∷ 21 ∷ 50 ∷ 95 ∷ [])

unfoldable pub spi_modes : List ℕ
unfolding insert_states spi_value
spi_modes = insert_states [] (
    spi_value disabled
    ∷ spi_value suspended
    ∷ spi_value buff_protect
    ∷ spi_value crcm_err
    ∷ spi_value ready_comm
    ∷ spi_value ready_prog
    ∷ spi_value ready_debug
    ∷ spi_value slow_mode
    ∷ spi_value hw_error
    ∷ [])

unfoldable pub is_finite_state : ℕ → Bool
unfolding finite_states contains
is_finite_state state = contains finite_states state

unfoldable pub is_special_state : ℕ → Bool
unfolding special_states contains
is_special_state state = contains special_states state

-- `insertStatesInfo` on the first `size` words of the memory that begins with the array.
unfoldable pub insert_all : StateInfo → List ℕ → StatesInfo → StatesInfo
unfolding insert
insert_all info [] m = m
insert_all info (s ∷ states) m = insert_all info states (insert ◌==◌ s info m)

unfoldable pub insert_states_info : List ℕ → ℕ → MessageType → StatesInfo → StatesInfo
unfolding insert_all
insert_states_info states size t =
    insert_all (record { msg_type = t; multi_type = false }) (take size states)

unfoldable pub insert_multi_type_states_info : List ℕ → ℕ → StatesInfo → StatesInfo
unfolding insert_all
insert_multi_type_states_info states size =
    insert_all (record { msg_type = msg_error; multi_type = true }) (take size states)

-- `initStatesInfoMap` up to the call for the upload and download states.
unfoldable pub states_info_head : StatesInfo
unfolding insert_states_info insert_multi_type_states_info
states_info_head =
    let m = insert_multi_type_states_info (0 ∷ 1 ∷ 9 ∷ 16 ∷ 33 ∷ 58 ∷ 79 ∷ 95 ∷ []) 8 [] in
    let m1 = insert_states_info (2 ∷ 3 ∷ 4 ∷ 5 ∷ []) 4 msg_error m in
    let m2 = insert_states_info (6 ∷ 7 ∷ 8 ∷ []) 3 msg_test m1 in
    let m3 = insert_states_info (10 ∷ 101 ∷ 102 ∷ 103 ∷ []) 4 msg_res_usb m2 in
    let m4 = insert_states_info (11 ∷ 12 ∷ 13 ∷ 14 ∷ 15 ∷ []) 5 msg_res_tr m3 in
    let m5 = insert_states_info (17 ∷ 18 ∷ 19 ∷ []) 3 msg_usb_info m4 in
    let m6 = insert_states_info (20 ∷ 21 ∷ 22 ∷ 23 ∷ []) 4 msg_tr_info m5 in
    let m7 = insert_states_info (24 ∷ 25 ∷ 26 ∷ 27 ∷ 28 ∷ []) 5 msg_usb_conn m6 in
    let m8 = insert_states_info (29 ∷ 30 ∷ 31 ∷ 32 ∷ []) 4 msg_spi_stat m7 in
    let m9 =
      insert_states_info (34 ∷ 35 ∷ 36 ∷ 37 ∷ 38 ∷ 39 ∷ 40 ∷ 41 ∷ 42 ∷ 43 ∷ 44 ∷ 45 ∷ 46 ∷ 47 ∷ [])
        14 msg_data_send m8 in
    let m10 = insert_states_info (48 ∷ 49 ∷ 50 ∷ 51 ∷ 52 ∷ []) 5 msg_async m9 in
    let m11 = insert_states_info (53 ∷ 54 ∷ 55 ∷ 56 ∷ 57 ∷ []) 5 msg_switch m10 in
    let m12 =
      insert_states_info (69 ∷ 70 ∷ 71 ∷ 72 ∷ 73 ∷ 74 ∷ 75 ∷ 76 ∷ 77 ∷ 78 ∷ []) 10 msg_mode_normal
        m11 in
    insert_states_info (59 ∷ 60 ∷ 61 ∷ 62 ∷ 63 ∷ 64 ∷ 65 ∷ 66 ∷ 67 ∷ 68 ∷ []) 10 msg_mode_program
      m12

abbrev pub res_upload_download : List ℕ
res_upload_download = 80 ∷ 81 ∷ 82 ∷ 83 ∷ 84 ∷ 85 ∷ 86 ∷ 87 ∷ 88 ∷ 89 ∷ 90 ∷ 91 ∷ 92 ∷ 93 ∷ []

-- The whole of `initStatesInfoMap`.
unfoldable pub states_info : List ℕ → StatesInfo
unfolding states_info_head
states_info stray =
    insert_states_info (96 ∷ 97 ∷ []) 2 msg_download_data
      (insert_states_info (res_upload_download ++ stray) 17 msg_upload_download states_info_head)
