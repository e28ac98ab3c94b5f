-- ===== src/Protocol/Messages/Layouts.antt =====
-- internal/protocol/catalog_gen.go: the struct layouts of the way into the world.
use rom_server_poc.Prelude.{List, [], ◌∷◌}
use rom_server_poc.Protocol.Catalog.{Field, field}

abbrev pub user_block_info_layout : List Field
user_block_info_layout =
    field "m_reasonIdx" "System.Byte"
    ∷ field "m_blockType" "System.Byte"
    ∷ field "m_endTime" "System.Int64"
    ∷ []

abbrev pub lobby_player_info_layout : List Field
lobby_player_info_layout =
    field "m_slotIndex" "System.Byte"
    ∷ field "m_classType" "System.Byte"
    ∷ field "m_subClassType" "System.Byte"
    ∷ field "m_name" "System.Char[]"
    ∷ field "m_headType" "System.Byte"
    ∷ field "m_equipCostumeIndex" "System.Int32"
    ∷ field "m_equipCostumeStepUp" "System.Byte"
    ∷ field "m_weaponItemIndex" "System.Int32"
    ∷ field "m_weaponEnchant" "System.Byte"
    ∷ field "m_level" "System.Int32"
    ∷ field "m_exp" "System.Int64"
    ∷ field "m_realPower" "System.Int32"
    ∷ field "m_mapIndex" "System.Int32"
    ∷ field "m_latestLoginTime" "System.Int64"
    ∷ field "m_latestLogoutTime" "System.Int64"
    ∷ field "m_deletedTime" "System.Int64"
    ∷ field "m_createdTime" "System.Int64"
    ∷ field "m_guildName" "System.Char[]"
    ∷ []

abbrev pub my_player_info_layout : List Field
my_player_info_layout =
    field "m_OID" "System.Int64"
    ∷ field "m_objectType" "System.Byte"
    ∷ field "m_appearType" "System.Byte"
    ∷ field "m_dir" "System.Single"
    ∷ field "m_pos" "Protocol.Vector"
    ∷ field "m_alive" "System.Byte"
    ∷ field "m_effectBuffList" "System.Collections.Generic.List<System.Int32>"
    ∷ field "m_worldID" "System.Int32"
    ∷ field "m_name" "System.Char[]"
    ∷ field "m_class" "System.Byte"
    ∷ field "m_subClass" "System.Byte"
    ∷ field "m_alignment" "System.Int32"
    ∷ field "m_headIndex" "System.Int32"
    ∷ field "m_costumeIndex" "System.Int32"
    ∷ field "m_costumeStepUp" "System.Byte"
    ∷ field "m_weaponIndex" "System.Int32"
    ∷ field "m_weaponEnchant" "System.Byte"
    ∷ field "m_unionOID" "System.Int64"
    ∷ field "m_unionMarkIndex" "System.Int32"
    ∷ field "m_guildOID" "System.Int64"
    ∷ field "m_guildMarkIndex" "System.Int32"
    ∷ field "m_guildMemberGrade" "System.Byte"
    ∷ field "m_petIndex" "System.Int32"
    ∷ field "m_titleIndex" "System.Int32"
    ∷ field "m_wantedRank" "System.Int32"
    ∷ field "m_isSlayer" "System.Boolean"
    ∷ field "m_teamIndex" "System.Byte"
    ∷ field "m_memberIndex" "System.Byte"
    ∷ field "m_memberType" "System.Byte"
    ∷ field "m_chaoExpiredTime" "System.Int64"
    ∷ field "m_level" "System.Int32"
    ∷ field "m_exp" "System.Int64"
    ∷ field "m_powerRank" "System.Int32"
    ∷ field "m_prevPowerRank" "System.Int32"
    ∷ field "m_mapIndex" "System.Int32"
    ∷ field "m_statInfo" "Protocol.StatInfo"
    ∷ field "m_useWorldAuction" "System.Boolean"
    ∷ field "m_mineRemainTime" "System.Int32"
    ∷ field "m_equippedCostumeIndex" "System.Int32"
    ∷ field "m_equippedCostumeStepUp" "System.Byte"
    ∷ field "m_equippedPetIndex" "System.Int32"
    ∷ []

abbrev pub vector_layout : List Field
vector_layout =
    field "m_x" "System.Single" ∷ field "m_y" "System.Single" ∷ field "m_z" "System.Single" ∷ []

abbrev pub stat_info_layout : List Field
stat_info_layout =
    field "m_statPoint" "System.Int32"
    ∷ field "m_statSTR" "System.Int32"
    ∷ field "m_statCON" "System.Int32"
    ∷ field "m_statDEX" "System.Int32"
    ∷ field "m_statINT" "System.Int32"
    ∷ field "m_statWIZ" "System.Int32"
    ∷ field "m_elixirPoint" "System.Int32"
    ∷ field "m_elixirSTR" "System.Int32"
    ∷ field "m_elixirCON" "System.Int32"
    ∷ field "m_elixirDEX" "System.Int32"
    ∷ field "m_elixirINT" "System.Int32"
    ∷ field "m_elixirWIZ" "System.Int32"
    ∷ []

abbrev pub s2c_move_notice_layout : List Field
s2c_move_notice_layout =
    field "m_seq" "System.Int32"
    ∷ field "m_objectType" "System.Byte"
    ∷ field "m_objectOID" "System.Int64"
    ∷ field "m_moveType" "System.Byte"
    ∷ field "m_walkType" "System.Byte"
    ∷ field "m_speed" "System.Single"
    ∷ field "m_currentPos" "Protocol.Vector"
    ∷ field "m_moveDir" "Protocol.Vector"
    ∷ field "m_movePath" "System.Collections.Generic.List<Protocol.Vector>"
    ∷ []
