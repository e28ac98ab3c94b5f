-- ===== src/Protocol/Messages/Items.antt =====
-- internal/protocol/catalog_gen.go: the struct layouts of item changes.
use rom_server_poc.Prelude.{List, [], ◌∷◌}
use rom_server_poc.Protocol.Catalog.{Field, field}

abbrev pub dissolve_data_layout : List Field
dissolve_data_layout = field "m_itemOID" "System.Int64" ∷ field "m_itemCount" "System.Int32" ∷ []

abbrev pub dissolve_reward_data_layout : List Field
dissolve_reward_data_layout =
    field "m_rewardType" "System.Byte"
    ∷ field "m_itemIndex" "System.Int32"
    ∷ field "m_itemCount" "System.Int32"
    ∷ []

abbrev pub item_make_result_info_layout : List Field
item_make_result_info_layout =
    field "m_resultType" "System.Byte"
    ∷ field "m_itemIndex" "System.Int32"
    ∷ field "m_enchantValue" "System.Byte"
    ∷ field "m_itemCount" "System.Int32"
    ∷ []

abbrev pub item_make_limit_info_layout : List Field
item_make_limit_info_layout =
    field "m_limitType" "System.Byte"
    ∷ field "m_itemMakeIndex" "System.Int32"
    ∷ field "m_makeCount" "System.Int32"
    ∷ []

abbrev pub item_enchant_request_layout : List Field
item_enchant_request_layout =
    field "m_itemOID" "System.Int64"
    ∷ field "m_isSafe" "System.Boolean"
    ∷ field "m_targetLevel" "System.Byte"
    ∷ []

abbrev pub item_enchant_result_layout : List Field
item_enchant_result_layout =
    field "m_itemOID" "System.Int64"
    ∷ field "m_itemIndex" "System.Int32"
    ∷ field "m_isSuccess" "System.Boolean"
    ∷ field "m_enchantLevel" "System.Byte"
    ∷ []

abbrev pub item_broken_give_data_layout : List Field
item_broken_give_data_layout =
    field "m_mainType" "System.Byte"
    ∷ field "m_subType" "System.Int32"
    ∷ field "m_value" "System.Int32"
    ∷ []

abbrev pub eryndor_imprinting_info_layout : List Field
eryndor_imprinting_info_layout =
    field "m_itemIndex" "System.Int32"
    ∷ field "m_optionIndex" "System.Int32[]"
    ∷ field "m_enableOptionIndex" "System.Collections.Generic.List<System.Byte>"
    ∷ field "m_state" "System.Byte"
    ∷ []

abbrev pub end_time_info_layout : List Field
end_time_info_layout = field "m_index" "System.Int32" ∷ field "m_endTime" "System.Int64" ∷ []

abbrev pub item_collection_slots_layout : List Field
item_collection_slots_layout =
    field "m_index" "System.Int32"
    ∷ field "m_slots" "System.Byte"
    ∷ field "m_regQtyList" "System.Collections.Generic.List<Protocol.ItemCollectionSlotRegQty>"
    ∷ []

abbrev pub item_collection_slot_reg_qty_layout : List Field
item_collection_slot_reg_qty_layout =
    field "m_slotIdx" "System.Byte" ∷ field "m_registrationQuantity" "System.Int32" ∷ []
