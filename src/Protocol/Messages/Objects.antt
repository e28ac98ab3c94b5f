-- ===== src/Protocol/Messages/Objects.antt =====
-- internal/protocol/catalog_gen.go: the struct layouts of objects and items.
use rom_server_poc.Prelude.{List, [], ◌∷◌}
use rom_server_poc.Protocol.Catalog.{Field, field}

abbrev pub player_data_layout : List Field
player_data_layout =
    field "m_OID" "System.Int64"
    ∷ field "m_objectType" "System.Byte"
    ∷ field "m_appearType" "System.Byte"
    ∷ field "m_dir" "System.Single"
    ∷ field "m_pos" "Protocol.Vector"
    ∷ field "m_alive" "System.Byte"
    ∷ field "m_effectBuffList" "System.Collections.Generic.List<System.Int32>"
    ∷ field "m_worldID" "System.Int32"
    ∷ field "m_name" "System.Char[]"
    ∷ field "m_class" "System.Byte"
    ∷ field "m_subClass" "System.Byte"
    ∷ field "m_alignment" "System.Int32"
    ∷ field "m_headIndex" "System.Int32"
    ∷ field "m_costumeIndex" "System.Int32"
    ∷ field "m_costumeStepUp" "System.Byte"
    ∷ field "m_weaponIndex" "System.Int32"
    ∷ field "m_weaponEnchant" "System.Byte"
    ∷ field "m_unionOID" "System.Int64"
    ∷ field "m_unionMarkIndex" "System.Int32"
    ∷ field "m_guildOID" "System.Int64"
    ∷ field "m_guildMarkIndex" "System.Int32"
    ∷ field "m_guildMemberGrade" "System.Byte"
    ∷ field "m_petIndex" "System.Int32"
    ∷ field "m_titleIndex" "System.Int32"
    ∷ field "m_wantedRank" "System.Int32"
    ∷ field "m_isSlayer" "System.Boolean"
    ∷ field "m_teamIndex" "System.Byte"
    ∷ field "m_memberIndex" "System.Byte"
    ∷ field "m_memberType" "System.Byte"
    ∷ field "m_chaoExpiredTime" "System.Int64"
    ∷ []

abbrev pub network_obj_data_layout : List Field
network_obj_data_layout =
    field "m_OID" "System.Int64"
    ∷ field "m_objectType" "System.Byte"
    ∷ field "m_appearType" "System.Byte"
    ∷ field "m_dir" "System.Single"
    ∷ field "m_pos" "Protocol.Vector"
    ∷ field "m_Index" "System.Int32"
    ∷ field "m_batchIndex" "System.Int32"
    ∷ field "m_available" "System.Boolean"
    ∷ field "m_alive" "System.Byte"
    ∷ field "m_effectBuffList" "System.Collections.Generic.List<System.Int32>"
    ∷ field "m_isStop" "System.Boolean"
    ∷ field "m_targetOID" "System.Int64"
    ∷ field "m_maxHP" "System.Int32"
    ∷ field "m_curHP" "System.Int32"
    ∷ []

abbrev pub equip_item_data_layout : List Field
equip_item_data_layout =
    field "m_presetSlot" "System.Byte"
    ∷ field "m_equipSlot" "System.Byte"
    ∷ field "m_itemOID" "System.Int64"
    ∷ field "m_itemIndex" "System.Int32"
    ∷ []

abbrev pub pet_info_layout : List Field
pet_info_layout =
    field "m_petIndex" "System.Int32"
    ∷ field "m_count" "System.Int32"
    ∷ field "m_level" "System.Int32"
    ∷ field "m_exp" "System.Int64"
    ∷ field "m_skillIndex" "System.Int32"
    ∷ field "m_equipItemList" "System.Collections.Generic.List<Protocol.EquipItemData>"
    ∷ field "m_stepup" "System.Byte"
    ∷ field "m_status" "System.Byte"
    ∷ []

abbrev pub item_data_layout : List Field
item_data_layout =
    field "m_repositoryType" "System.Byte"
    ∷ field "m_itemOID" "System.Int64"
    ∷ field "m_index" "System.Int32"
    ∷ field "m_count" "System.Int32"
    ∷ field "m_attribute" "System.Byte"
    ∷ field "m_enchant" "System.Byte"
    ∷ field "m_options" "Protocol.ItemOptions"
    ∷ []

abbrev pub item_options_layout : List Field
item_options_layout = field "m_regrant" "System.Byte" ∷ field "m_optionIndex" "System.Int32[]" ∷ []

abbrev pub skill_data_layout : List Field
skill_data_layout =
    field "m_skillIndex" "System.Int32"
    ∷ field "m_skillLevel" "System.Byte"
    ∷ field "m_lastUseTime" "System.Int64"
    ∷ []

abbrev pub sub_skill_point_data_layout : List Field
sub_skill_point_data_layout =
    field "m_subClassType" "System.Byte" ∷ field "m_useSubSkillPoint" "System.Int64" ∷ []

abbrev pub warehouse_item_move_layout : List Field
warehouse_item_move_layout = field "m_itemOID" "System.Int64" ∷ field "m_count" "System.Int32" ∷ []
