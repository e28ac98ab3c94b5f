-- ===== src/Protocol/Messages/Inventory.antt =====
-- internal/protocol/catalog_gen.go: the messages of the inventory and the contents settings.
use rom_server_poc.Prelude.{[], ◌∷◌}
use rom_server_poc.Protocol.Catalog.{Message, field}

abbrev pub s2c_equip_list : Message
s2c_equip_list = record {
  name = "S2C_EquipList";
  dir = "S2C";
  id = 0x189276E9;
  fields =
      field "m_usePresetSlot" "System.Byte[]"
      ∷ field "m_equipItemList" "System.Collections.Generic.List<Protocol.EquipItemData>[]"
      ∷ field "m_equipCostume" "System.Int32[]"
      ∷ field "m_equipPet" "Protocol.PetInfo[]"
      ∷ field "m_monolithEquipItemList" "System.Collections.Generic.List<Protocol.EquipItemData>[]"
      ∷ [];
}

abbrev pub s2c_contents_setting : Message
s2c_contents_setting = record {
  name = "S2C_ContentsSetting";
  dir = "S2C";
  id = 0x003FDD11;
  fields =
      field "m_contentsFlags" "System.UInt32"
      ∷ field "m_levelLimits" "System.Int32[]"
      ∷ field "m_values" "System.Int32[]"
      ∷ [];
}

abbrev pub s2c_contents_setting_update_notify : Message
s2c_contents_setting_update_notify = record {
  name = "S2C_ContentsSettingUpdateNotify";
  dir = "S2C";
  id = 0x2564BD45;
  fields =
      field "m_category" "System.Byte"
      ∷ field "m_type" "System.Byte"
      ∷ field "m_value" "System.Int32"
      ∷ [];
}

abbrev pub s2c_item_list : Message
s2c_item_list = record {
  name = "S2C_ItemList";
  dir = "S2C";
  id = 0x04BB4114;
  fields =
      field "__state__" "System.Byte"
      ∷ field "m_repositoryType" "System.Byte"
      ∷ field "m_maxSlotCount" "System.Int32"
      ∷ field "m_totalItemCount" "System.Int32"
      ∷ field "m_itemList" "System.Collections.Generic.List<Protocol.ItemData>"
      ∷ [];
}

abbrev pub c2s_skill_list : Message
c2s_skill_list = record { name = "C2S_SkillList"; dir = "C2S"; id = 0x079F1C07; fields = [] }

abbrev pub s2c_skill_list : Message
s2c_skill_list = record {
  name = "S2C_SkillList";
  dir = "S2C";
  id = 0x228CB8E6;
  fields =
      field "m_playerOID" "System.Int64"
      ∷ field "m_skillDataList" "System.Collections.Generic.List<Protocol.SkillData>"
      ∷ field "m_useSubSkillPointList" "System.Collections.Generic.List<Protocol.SubSkillPointData>"
      ∷ [];
}

abbrev pub c2s_restorable_item_list : Message
c2s_restorable_item_list = record {
  name = "C2S_RestorableItemList";
  dir = "C2S";
  id = 0x2CE26A14;
  fields = field "m_materialItemOID" "System.Int64" ∷ [];
}

abbrev pub s2c_restorable_item_list : Message
s2c_restorable_item_list = record {
  name = "S2C_RestorableItemList";
  dir = "S2C";
  id = 0x3A91AEC6;
  fields =
      field "__state__" "System.Byte"
      ∷ field "m_result" "System.Int32"
      ∷ field "m_materialItemOID" "System.Int64"
      ∷ field "m_materialItemSubType" "System.Int32"
      ∷ field "m_restoreStartTime" "System.Int64"
      ∷ field "m_restoreEndTime" "System.Int64"
      ∷ field "m_restorableItemList" "System.Collections.Generic.List<Protocol.ItemData>"
      ∷ [];
}

abbrev pub c2s_warehouse_item_move : Message
c2s_warehouse_item_move = record {
  name = "C2S_WarehouseItemMove";
  dir = "C2S";
  id = 0x074D4A97;
  fields =
      field "m_npcBatchIndex" "System.Int32"
      ∷ field "m_toRepositoryType" "System.Byte"
      ∷ field "m_itemList" "System.Collections.Generic.List<Protocol.WarehouseItemMove>"
      ∷ [];
}

abbrev pub s2c_warehouse_item_move : Message
s2c_warehouse_item_move = record {
  name = "S2C_WarehouseItemMove";
  dir = "S2C";
  id = 0x0C3BDEF0;
  fields =
      field "m_result" "System.Int32"
      ∷ field "m_toRepositoryType" "System.Byte"
      ∷ field "m_spendMoney" "System.Int64"
      ∷ [];
}
