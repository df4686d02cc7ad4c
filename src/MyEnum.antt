-- ===== src/MyEnum.antt =====
-- smer/SmerSystem/inc/MyEnum.h: the enumerations. Their values travel as unsigned numbers, so every
-- enumeration comes with the number that the compiler gives to each name.
use ifellsofuckinggood.Prelude.{ℕ}

pub data MsgType : Type 0 where
  msg_cmd msg_talk msg_ack msg_reg msg_reg_accept msg_reg_refuse msg_login : MsgType
  msg_login_accept msg_login_refuse msg_logout msg_ask_for_friend : MsgType
  msg_ask_for_friend_not_found msg_ask_for_friend_accept msg_ask_for_friend_refuse : MsgType
  msg_button : MsgType

abbrev pub msg_code : MsgType → ℕ
msg_code msg_cmd = 0
msg_code msg_talk = 1
msg_code msg_ack = 2
msg_code msg_reg = 3
msg_code msg_reg_accept = 4
msg_code msg_reg_refuse = 5
msg_code msg_login = 6
msg_code msg_login_accept = 7
msg_code msg_login_refuse = 8
msg_code msg_logout = 9
msg_code msg_ask_for_friend = 10
msg_code msg_ask_for_friend_not_found = 11
msg_code msg_ask_for_friend_accept = 12
msg_code msg_ask_for_friend_refuse = 13
msg_code msg_button = 14

pub data SysMsgType : Type 0 where
  sys_output_msg sys_show_friends_msg sys_show_ask_for_friend_req sys_msg_button : SysMsgType

abbrev pub sys_msg_code : SysMsgType → ℕ
sys_msg_code sys_output_msg = 0
sys_msg_code sys_show_friends_msg = 1
sys_msg_code sys_show_ask_for_friend_req = 2
sys_msg_code sys_msg_button = 3

pub data CmdType : Type 0 where
  cmd_move_up cmd_move_down cmd_move_left cmd_move_right cmd_attack cmd_jump cmd_enter : CmdType
  cmd_backpack cmd_map cmd_system cmd_button : CmdType

abbrev pub cmd_code : CmdType → ℕ
cmd_code cmd_move_up = 0
cmd_code cmd_move_down = 1
cmd_code cmd_move_left = 2
cmd_code cmd_move_right = 3
cmd_code cmd_attack = 4
cmd_code cmd_jump = 5
cmd_code cmd_enter = 6
cmd_code cmd_backpack = 7
cmd_code cmd_map = 8
cmd_code cmd_system = 9
cmd_code cmd_button = 10
