-- ===== src/Protocol/Messages/Storage.antt =====
-- internal/protocol/catalog_gen.go: the messages of the equipment, item collections and warehouse.
use rom_server_poc.Prelude.{[], ◌∷◌}
use rom_server_poc.Protocol.Catalog.{Message, field}

abbrev pub c2s_equip_item : Message
c2s_equip_item = record {
  name = "C2S_EquipItem";
  dir = "C2S";
  id = 0x24C42973;
  fields = field "m_equipSlot" "System.Byte" ∷ field "m_itemOID" "System.Int64" ∷ [];
}

abbrev pub s2c_equip_item : Message
s2c_equip_item = record {
  name = "S2C_EquipItem";
  dir = "S2C";
  id = 0x04F39A21;
  fields =
      field "m_result" "System.Int32"
      ∷ field "m_presetSlot" "System.Byte"
      ∷ field "m_equipSlot" "System.Byte"
      ∷ field "m_itemOID" "System.Int64"
      ∷ [];
}

abbrev pub s2c_item_collection_end_noti : Message
s2c_item_collection_end_noti = record {
  name = "S2C_ItemCollectionEndNoti";
  dir = "S2C";
  id = 0x2E5FD928;
  fields = field "m_indexList" "System.Collections.Generic.List<System.Int32>" ∷ [];
}

abbrev pub c2s_item_collection_list : Message
c2s_item_collection_list = record {
  name = "C2S_ItemCollectionList";
  dir = "C2S";
  id = 0x2F5B4A9B;
  fields = [];
}

abbrev pub s2c_item_collection_list : Message
s2c_item_collection_list = record {
  name = "S2C_ItemCollectionList";
  dir = "S2C";
  id = 0x2AFCF8A7;
  fields =
      field "__state__" "System.Byte"
      ∷ field "m_completedSlotCount" "System.Int32"
      ∷ field "m_seasonOpenList" "System.Collections.Generic.List<System.Int32>"
      ∷ field "m_completeList" "System.Collections.Generic.List<System.Int32>"
      ∷ field "m_timeLimitCompleteList" "System.Collections.Generic.List<Protocol.EndTimeInfo>"
      ∷ field "m_proceedingList" "System.Collections.Generic.List<Protocol.ItemCollectionSlots>"
      ∷ field "m_seasonResetTime" "System.Int64"
      ∷ [];
}

abbrev pub s2c_item_collection_seaon_list_noti : Message
s2c_item_collection_seaon_list_noti = record {
  name = "S2C_ItemCollectionSeaonListNoti";
  dir = "S2C";
  id = 0x097FCA85;
  fields =
      field "m_seasonOpenList" "System.Collections.Generic.List<System.Int32>"
      ∷ field "m_seasonResetTime" "System.Int64"
      ∷ [];
}

abbrev pub s2c_item_manipulate_notify : Message
s2c_item_manipulate_notify = record {
  name = "S2C_ItemManipulateNotify";
  dir = "S2C";
  id = 0x0E0A4E11;
  fields =
      field "m_propertyEventType" "System.Int32"
      ∷ field "m_relatedTargetOID" "System.Int64"
      ∷ field "m_addItemList" "System.Collections.Generic.List<Protocol.ItemData>"
      ∷ field "m_updateItemList" "System.Collections.Generic.List<Protocol.ItemData>"
      ∷ field "m_deleteItemList" "System.Collections.Generic.List<System.Int64>"
      ∷ [];
}

abbrev pub c2s_item_pickup : Message
c2s_item_pickup = record {
  name = "C2S_ItemPickup";
  dir = "C2S";
  id = 0x07780D1C;
  fields = field "m_propertyEventType" "System.Int32" ∷ field "m_itemOID" "System.Int64" ∷ [];
}

abbrev pub s2c_item_pickup : Message
s2c_item_pickup = record {
  name = "S2C_ItemPickup";
  dir = "S2C";
  id = 0x2D614666;
  fields =
      field "m_result" "System.Int32"
      ∷ field "m_itemOID" "System.Int64"
      ∷ field "m_itemIndex" "System.Int32"
      ∷ field "m_targetIndex" "System.Int32"
      ∷ [];
}

abbrev pub c2s_warehouse_item_sorting : Message
c2s_warehouse_item_sorting = record {
  name = "C2S_WarehouseItemSorting";
  dir = "C2S";
  id = 0x22FBE2D9;
  fields = [];
}

abbrev pub s2c_warehouse_item_sorting : Message
s2c_warehouse_item_sorting = record {
  name = "S2C_WarehouseItemSorting";
  dir = "S2C";
  id = 0x15833178;
  fields = field "m_result" "System.Int32" ∷ [];
}

abbrev pub c2s_warehouse_slot_expansion : Message
c2s_warehouse_slot_expansion = record {
  name = "C2S_WarehouseSlotExpansion";
  dir = "C2S";
  id = 0x33F2CF9D;
  fields =
      field "m_expansionSlotCount" "System.UInt16" ∷ field "m_paymentMethod" "System.Byte" ∷ [];
}

abbrev pub s2c_warehouse_slot_expansion : Message
s2c_warehouse_slot_expansion = record {
  name = "S2C_WarehouseSlotExpansion";
  dir = "S2C";
  id = 0x07C9BC86;
  fields = field "m_result" "System.Int32" ∷ field "m_maxSlotCount" "System.Int32" ∷ [];
}
