-- ===== src/Protocol/Messages/PartyDungeon.antt =====
-- internal/protocol/catalog_gen.go: the messages of the party dungeons and the sharing of loot.
use rom_server_poc.Prelude.{[], ◌∷◌}
use rom_server_poc.Protocol.Catalog.{Message, field}

abbrev pub c2s_party_dungeon_enter : Message
c2s_party_dungeon_enter = record {
  name = "C2S_PartyDungeonEnter";
  dir = "C2S";
  id = 0x3ACEE854;
  fields = field "m_mapIndex" "System.Int32" ∷ [];
}

abbrev pub s2c_party_dungeon_enter : Message
s2c_party_dungeon_enter = record {
  name = "S2C_PartyDungeonEnter";
  dir = "S2C";
  id = 0x1D8E3BCB;
  fields = field "m_result" "System.Int32" ∷ field "m_mapIndex" "System.Int32" ∷ [];
}

abbrev pub s2c_party_dungeon_enter_noti : Message
s2c_party_dungeon_enter_noti = record {
  name = "S2C_PartyDungeonEnterNoti";
  dir = "S2C";
  id = 0x352FB8B9;
  fields = field "m_mapIndex" "System.Int32" ∷ [];
}

abbrev pub c2s_party_dungeon_entry_status : Message
c2s_party_dungeon_entry_status = record {
  name = "C2S_PartyDungeonEntryStatus";
  dir = "C2S";
  id = 0x0A18E857;
  fields = [];
}

abbrev pub s2c_party_dungeon_entry_status : Message
s2c_party_dungeon_entry_status = record {
  name = "S2C_PartyDungeonEntryStatus";
  dir = "S2C";
  id = 0x332858FC;
  fields =
      field "m_memberInfoList" "System.Collections.Generic.List<Protocol.PartyDungeonMemberInfo>"
      ∷ [];
}

abbrev pub s2c_party_dungeon_player_count_noti : Message
s2c_party_dungeon_player_count_noti = record {
  name = "S2C_PartyDungeonPlayerCountNoti";
  dir = "S2C";
  id = 0x37603B87;
  fields = field "m_mapIndex" "System.Int32" ∷ field "m_playerCount" "System.Int32" ∷ [];
}

abbrev pub s2c_party_dungeon_tower_info_noti : Message
s2c_party_dungeon_tower_info_noti = record {
  name = "S2C_PartyDungeonTowerInfoNoti";
  dir = "S2C";
  id = 0x0A637598;
  fields = field "m_currHP" "System.Int64" ∷ [];
}

abbrev pub c2s_party_loot_change_noti : Message
c2s_party_loot_change_noti = record {
  name = "C2S_PartyLootChangeNoti";
  dir = "C2S";
  id = 0x17D7B73D;
  fields = field "m_newLootType" "System.Int32" ∷ [];
}
