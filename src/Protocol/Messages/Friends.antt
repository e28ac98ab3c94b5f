-- ===== src/Protocol/Messages/Friends.antt =====
-- internal/protocol/catalog_gen.go: the messages of the friends.
use rom_server_poc.Prelude.{[], ◌∷◌}
use rom_server_poc.Protocol.Catalog.{Message, field}

abbrev pub c2s_friend_delete : Message
c2s_friend_delete = record {
  name = "C2S_FriendDelete";
  dir = "C2S";
  id = 0x1088AE47;
  fields = field "m_targetPlayerOID" "System.Int64" ∷ [];
}

abbrev pub s2c_friend_delete : Message
s2c_friend_delete = record {
  name = "S2C_FriendDelete";
  dir = "S2C";
  id = 0x1185D802;
  fields = field "m_result" "System.Int32" ∷ field "m_targetPlayerOID" "System.Int64" ∷ [];
}

abbrev pub c2s_friend_request : Message
c2s_friend_request = record {
  name = "C2S_FriendRequest";
  dir = "C2S";
  id = 0x1A61AABF;
  fields =
      field "m_targetPlayerOID" "System.Int64" ∷ field "m_targetPlayerName" "System.String" ∷ [];
}

abbrev pub s2c_friend_request : Message
s2c_friend_request = record {
  name = "S2C_FriendRequest";
  dir = "S2C";
  id = 0x3186BA94;
  fields =
      field "m_result" "System.Int32"
      ∷ field "m_requestPlayerInfo" "Protocol.FriendRequestInfo"
      ∷ [];
}

abbrev pub c2s_friend_request_cancel : Message
c2s_friend_request_cancel = record {
  name = "C2S_FriendRequestCancel";
  dir = "C2S";
  id = 0x2C31CBB0;
  fields = field "m_targetPlayerOID" "System.Int64" ∷ [];
}

abbrev pub s2c_friend_request_cancel : Message
s2c_friend_request_cancel = record {
  name = "S2C_FriendRequestCancel";
  dir = "S2C";
  id = 0x316A05A5;
  fields = field "m_result" "System.Int32" ∷ field "m_targetPlayerOID" "System.Int64" ∷ [];
}

abbrev pub c2s_friend_request_reply : Message
c2s_friend_request_reply = record {
  name = "C2S_FriendRequestReply";
  dir = "C2S";
  id = 0x20724726;
  fields = field "m_accept" "System.Boolean" ∷ field "m_targetPlayerOID" "System.Int64" ∷ [];
}

abbrev pub s2c_friend_request_reply : Message
s2c_friend_request_reply = record {
  name = "S2C_FriendRequestReply";
  dir = "S2C";
  id = 0x101FE3B5;
  fields =
      field "m_result" "System.Int32"
      ∷ field "m_accept" "System.Boolean"
      ∷ field "m_friendPlayerInfo" "Protocol.RelationPlayerInfo"
      ∷ [];
}
