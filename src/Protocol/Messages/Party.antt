-- ===== src/Protocol/Messages/Party.antt =====
-- internal/protocol/catalog_gen.go: the messages of the party.
use rom_server_poc.Prelude.{[], ◌∷◌}
use rom_server_poc.Protocol.Catalog.{Message, field}

abbrev pub c2s_party_accept_noti : Message
c2s_party_accept_noti = record {
  name = "C2S_PartyAcceptNoti";
  dir = "C2S";
  id = 0x1888F546;
  fields = field "m_type" "System.Byte" ∷ [];
}

abbrev pub s2c_party_accept_noti : Message
s2c_party_accept_noti = record {
  name = "S2C_PartyAcceptNoti";
  dir = "S2C";
  id = 0x36217B7C;
  fields =
      field "m_type" "System.Byte"
      ∷ field "m_inviteeWorldID" "System.Int32"
      ∷ field "m_inviteeOID" "System.Int64"
      ∷ field "m_inviteeName" "System.Char[]"
      ∷ [];
}

abbrev pub c2s_party_cancel_noti : Message
c2s_party_cancel_noti = record {
  name = "C2S_PartyCancelNoti";
  dir = "C2S";
  id = 0x2CCC0E6F;
  fields = field "m_inviteeOID" "System.Int64" ∷ [];
}

abbrev pub s2c_party_cancel_noti : Message
s2c_party_cancel_noti = record {
  name = "S2C_PartyCancelNoti";
  dir = "S2C";
  id = 0x17D2379F;
  fields = [];
}

abbrev pub c2s_party_exist : Message
c2s_party_exist = record { name = "C2S_PartyExist"; dir = "C2S"; id = 0x2CBB6C9C; fields = [] }

abbrev pub s2c_party_exist : Message
s2c_party_exist = record {
  name = "S2C_PartyExist";
  dir = "S2C";
  id = 0x312556D2;
  fields = field "m_result" "System.Int32" ∷ [];
}

abbrev pub s2c_party_exit_noti : Message
s2c_party_exit_noti = record {
  name = "S2C_PartyExitNoti";
  dir = "S2C";
  id = 0x3943A38D;
  fields = field "m_exitType" "System.Byte" ∷ field "m_exitMemberOID" "System.Int64" ∷ [];
}

abbrev pub c2s_party_expel_noti : Message
c2s_party_expel_noti = record {
  name = "C2S_PartyExpelNoti";
  dir = "C2S";
  id = 0x272F3A96;
  fields = field "m_expelMemberOID" "System.Int64" ∷ [];
}

abbrev pub s2c_party_info_noti : Message
s2c_party_info_noti = record {
  name = "S2C_PartyInfoNoti";
  dir = "S2C";
  id = 0x2472ECC2;
  fields =
      field "m_infoType" "System.Int32"
      ∷ field "m_partyInfo" "Protocol.PartyInfo"
      ∷ field "m_memberDataList" "System.Collections.Generic.List<Protocol.PartyMemberData>"
      ∷ field "m_warpToken" "System.Int64"
      ∷ [];
}

abbrev pub c2s_party_invite : Message
c2s_party_invite = record {
  name = "C2S_PartyInvite";
  dir = "C2S";
  id = 0x23BCFA4B;
  fields =
      field "m_inviteeOID" "System.Int64"
      ∷ field "m_inviteeName" "System.Char[]"
      ∷ field "m_isRequestParty" "System.Boolean"
      ∷ [];
}

abbrev pub s2c_party_invite : Message
s2c_party_invite = record {
  name = "S2C_PartyInvite";
  dir = "S2C";
  id = 0x0F3140D0;
  fields =
      field "m_result" "System.Int32"
      ∷ field "m_inviteeWorldID" "System.Int32"
      ∷ field "m_inviteeOID" "System.Int64"
      ∷ field "m_inviteeName" "System.Char[]"
      ∷ field "m_inviteeClass" "System.Byte"
      ∷ field "m_inviteeSubClass" "System.Byte"
      ∷ field "m_inviteeMapIndex" "System.Int32"
      ∷ field "m_inviteeLayerIndex" "System.Int32"
      ∷ field "m_inviteeTeamIndex" "System.Byte"
      ∷ field "m_inviteeTeamMemberType" "System.Byte"
      ∷ field "m_inviteeTeamMemberIndex" "System.Byte"
      ∷ [];
}

abbrev pub s2c_party_invite_noti : Message
s2c_party_invite_noti = record {
  name = "S2C_PartyInviteNoti";
  dir = "S2C";
  id = 0x33D41B63;
  fields =
      field "m_invitorWorldID" "System.Int32"
      ∷ field "m_invitorOID" "System.Int64"
      ∷ field "m_invitorName" "System.Char[]"
      ∷ field "m_invitorClass" "System.Byte"
      ∷ field "m_invitorSubClass" "System.Byte"
      ∷ field "m_invitorMapIndex" "System.Int32"
      ∷ field "m_invitorLayerIndex" "System.Int32"
      ∷ field "m_invitorGuildOID" "System.Int64"
      ∷ field "m_invitorTeamIndex" "System.Byte"
      ∷ field "m_invitorTeamMemberType" "System.Byte"
      ∷ field "m_invitorTeamMemberIndex" "System.Byte"
      ∷ [];
}

abbrev pub c2s_party_leave_noti : Message
c2s_party_leave_noti = record {
  name = "C2S_PartyLeaveNoti";
  dir = "C2S";
  id = 0x2F43F18A;
  fields = [];
}

abbrev pub c2s_party_master_change_noti : Message
c2s_party_master_change_noti = record {
  name = "C2S_PartyMasterChangeNoti";
  dir = "C2S";
  id = 0x3AF66A55;
  fields = field "m_newMasterOID" "System.Int64" ∷ [];
}

abbrev pub s2c_party_member_get_item_notify : Message
s2c_party_member_get_item_notify = record {
  name = "S2C_PartyMemberGetItemNotify";
  dir = "S2C";
  id = 0x20EAE2D3;
  fields = field "m_getItemMemberOID" "System.Int64" ∷ field "m_itemIndex" "System.Int32" ∷ [];
}

abbrev pub c2s_party_target_noti : Message
c2s_party_target_noti = record {
  name = "C2S_PartyTargetNoti";
  dir = "C2S";
  id = 0x11A76804;
  fields = field "m_targetOID" "System.Int64" ∷ [];
}

abbrev pub s2c_party_target_noti : Message
s2c_party_target_noti = record {
  name = "S2C_PartyTargetNoti";
  dir = "S2C";
  id = 0x222DD9E8;
  fields = field "m_targetOID" "System.Int64" ∷ [];
}
