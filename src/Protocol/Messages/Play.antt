-- ===== src/Protocol/Messages/Play.antt =====
-- internal/protocol/catalog_gen.go: the struct layouts of friends, parties, skills and quests.
use rom_server_poc.Prelude.{List, [], ◌∷◌}
use rom_server_poc.Protocol.Catalog.{Field, field}

abbrev pub friend_request_info_layout : List Field
friend_request_info_layout =
    field "m_reqType" "System.Byte"
    ∷ field "m_playerOID" "System.Int64"
    ∷ field "m_playerName" "System.Char[]"
    ∷ []

abbrev pub relation_player_info_layout : List Field
relation_player_info_layout =
    field "m_classType" "System.Byte"
    ∷ field "m_subClassType" "System.Byte"
    ∷ field "m_playerOID" "System.Int64"
    ∷ field "m_playerName" "System.Char[]"
    ∷ field "m_isLogin" "System.Boolean"
    ∷ []

abbrev pub party_dungeon_member_info_layout : List Field
party_dungeon_member_info_layout =
    field "m_playerDBID" "System.Int64" ∷ field "m_entryState" "System.Boolean" ∷ []

abbrev pub party_info_layout : List Field
party_info_layout =
    field "m_partyUID" "System.Int32"
    ∷ field "m_masterOID" "System.Int64"
    ∷ field "m_lootType" "System.Int32"
    ∷ []

abbrev pub party_member_data_layout : List Field
party_member_data_layout =
    field "m_slotIndex" "System.Byte"
    ∷ field "m_serverID" "System.Int32"
    ∷ field "m_worldID" "System.Int32"
    ∷ field "m_playerOID" "System.Int64"
    ∷ field "m_playerClass" "System.Byte"
    ∷ field "m_playerSubClass" "System.Byte"
    ∷ field "m_playerName" "System.Char[]"
    ∷ field "m_teamIndex" "System.Byte"
    ∷ field "m_teamMemberType" "System.Byte"
    ∷ field "m_teamMemberIndex" "System.Byte"
    ∷ field "m_mapIndex" "System.Int32"
    ∷ field "m_layerIndex" "System.Int32"
    ∷ field "m_x" "System.Single"
    ∷ field "m_z" "System.Single"
    ∷ field "m_currentHP" "System.Int32"
    ∷ field "m_currentMP" "System.Int32"
    ∷ field "m_maxHP" "System.Int32"
    ∷ field "m_maxMP" "System.Int32"
    ∷ field "m_buffList" "System.Collections.Generic.List<Protocol.PartyBuffData>"
    ∷ []

abbrev pub party_buff_data_layout : List Field
party_buff_data_layout =
    field "m_buffIndex" "System.Int32" ∷ field "m_remainTime" "System.Int64" ∷ []

abbrev pub buff_data_layout : List Field
buff_data_layout =
    field "m_buffIndex" "System.Int32"
    ∷ field "m_remainTime" "System.Int64"
    ∷ field "m_goldenbellIndex" "System.Int32"
    ∷ field "m_playerName" "System.String"
    ∷ field "m_isHideChar" "System.Boolean"
    ∷ []

abbrev pub skill_effect_value_layout : List Field
skill_effect_value_layout =
    field "m_targetOID" "System.Int64"
    ∷ field "m_hp" "System.Int32"
    ∷ field "m_damage" "System.Int32"
    ∷ field "m_criticalType" "System.Byte"
    ∷ field "m_reactType" "System.Byte"
    ∷ field "m_counterType" "System.Byte"
    ∷ field "m_reactionSpeed" "System.Single"
    ∷ field "m_skillOption" "System.Boolean"
    ∷ field "m_barrier" "System.Boolean"
    ∷ []

abbrev pub reward_data_layout : List Field
reward_data_layout =
    field "m_type" "System.Byte"
    ∷ field "m_itemIndex" "System.Int32"
    ∷ field "m_count" "System.Int64"
    ∷ field "m_enchant" "System.Byte"
    ∷ []

abbrev pub quest_data_layout : List Field
quest_data_layout =
    field "m_type" "System.Byte"
    ∷ field "m_index" "System.Int32"
    ∷ field "m_state" "System.Byte"
    ∷ field "m_count" "System.Int32"
    ∷ []
