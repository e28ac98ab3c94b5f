-- ===== src/Protocol/Messages/Scene.antt =====
-- internal/protocol/catalog_gen.go: the messages of the scene: movement, objects and chat.
use rom_server_poc.Prelude.{[], ◌∷◌}
use rom_server_poc.Protocol.Catalog.{Message, field}

abbrev pub c2s_move_notice : Message
c2s_move_notice = record {
  name = "C2S_MoveNotice";
  dir = "C2S";
  id = 0x229E8E27;
  fields =
      field "m_seq" "System.Int32"
      ∷ field "m_dir" "System.Single"
      ∷ field "m_currentPos" "Protocol.Vector"
      ∷ field "m_moveType" "System.Byte"
      ∷ field "m_moveDir" "Protocol.Vector"
      ∷ field "m_movePath" "System.Collections.Generic.List<Protocol.Vector>"
      ∷ [];
}

abbrev pub s2c_move_list_notice : Message
s2c_move_list_notice = record {
  name = "S2C_MoveListNotice";
  dir = "S2C";
  id = 0x2B81CA0A;
  fields = field "m_moveList" "System.Collections.Generic.List<Protocol.S2C_MoveNotice>" ∷ [];
}

abbrev pub c2s_object_appear_notice : Message
c2s_object_appear_notice = record {
  name = "C2S_ObjectAppearNotice";
  dir = "C2S";
  id = 0x24D9B608;
  fields = field "m_objectOID" "System.Int64" ∷ [];
}

abbrev pub s2c_object_appear_notice : Message
s2c_object_appear_notice = record {
  name = "S2C_ObjectAppearNotice";
  dir = "S2C";
  id = 0x37A57AFB;
  fields =
      field "m_playerList" "System.Collections.Generic.List<Protocol.PlayerData>"
      ∷ field "m_networkObjList" "System.Collections.Generic.List<Protocol.NetworkObjData>"
      ∷ [];
}

abbrev pub s2c_object_disappear_notice : Message
s2c_object_disappear_notice = record {
  name = "S2C_ObjectDisappearNotice";
  dir = "S2C";
  id = 0x1C84C0DC;
  fields =
      field "m_disappearType" "System.Byte"
      ∷ field "m_objectList" "System.Collections.Generic.List<System.Int64>"
      ∷ [];
}

abbrev pub c2s_player_warp : Message
c2s_player_warp = record {
  name = "C2S_PlayerWarp";
  dir = "C2S";
  id = 0x397CBE29;
  fields =
      field "m_index" "System.Int32"
      ∷ field "m_checkSum" "System.Int32"
      ∷ field "m_warpType" "System.Int32"
      ∷ field "m_npcBatchIndex" "System.Int32"
      ∷ [];
}

abbrev pub s2c_player_warp : Message
s2c_player_warp = record {
  name = "S2C_PlayerWarp";
  dir = "S2C";
  id = 0x1F45F5A7;
  fields =
      field "m_result" "System.Int32"
      ∷ field "m_index" "System.Int32"
      ∷ field "m_checkSum" "System.Int32"
      ∷ field "m_warpType" "System.Int32"
      ∷ field "m_posX" "System.Single"
      ∷ field "m_posZ" "System.Single"
      ∷ field "m_mapIndex" "System.Int32"
      ∷ field "m_startSpawn" "System.Int32"
      ∷ field "m_warpToken" "System.Int64"
      ∷ [];
}

abbrev pub c2s_chat_msg : Message
c2s_chat_msg = record {
  name = "C2S_ChatMsg";
  dir = "C2S";
  id = 0x01B6F9CE;
  fields =
      field "m_chatType" "System.Byte"
      ∷ field "m_chatMsg" "System.String"
      ∷ field "m_toPlayerName" "System.String"
      ∷ field "m_languageType" "System.Byte"
      ∷ [];
}

abbrev pub s2c_chat_msg : Message
s2c_chat_msg = record {
  name = "S2C_ChatMsg";
  dir = "S2C";
  id = 0x29CD0F03;
  fields = field "m_result" "System.Int32" ∷ [];
}

abbrev pub s2c_chat_msg_notify : Message
s2c_chat_msg_notify = record {
  name = "S2C_ChatMsgNotify";
  dir = "S2C";
  id = 0x316E9960;
  fields =
      field "m_chatType" "System.Byte"
      ∷ field "m_fromPlayerWorldID" "System.Int32"
      ∷ field "m_fromPlayerName" "System.Char[]"
      ∷ field "m_fromPlayerClassType" "System.Byte"
      ∷ field "m_fromPlayerPowerRank" "System.Int32"
      ∷ field "m_fromPlayerMemberType" "System.Byte"
      ∷ field "m_chatMsg" "System.String"
      ∷ field "m_sendTime" "System.Int64"
      ∷ field "m_languageType" "System.Byte"
      ∷ [];
}
