-- ===== src/Protocol/Messages/Enchant.antt =====
-- internal/protocol/catalog_gen.go: the messages of the enchanting of items.
use rom_server_poc.Prelude.{[], ◌∷◌}
use rom_server_poc.Protocol.Catalog.{Message, field}

abbrev pub c2s_item_awakening : Message
c2s_item_awakening = record {
  name = "C2S_ItemAwakening";
  dir = "C2S";
  id = 0x2A021262;
  fields =
      field "m_awakeningItemOID" "System.Int64"
      ∷ field "m_materialList" "System.Collections.Generic.List<System.Int64>"
      ∷ [];
}

abbrev pub s2c_item_awakening : Message
s2c_item_awakening = record {
  name = "S2C_ItemAwakening";
  dir = "S2C";
  id = 0x1A8F92FD;
  fields =
      field "m_result" "System.Int32"
      ∷ field "m_awakeningItemOID" "System.Int64"
      ∷ field "m_awakeningResult" "System.Byte"
      ∷ [];
}

abbrev pub c2s_item_enchant : Message
c2s_item_enchant = record {
  name = "C2S_ItemEnchant";
  dir = "C2S";
  id = 0x0D83EE30;
  fields =
      field "m_itemList" "System.Collections.Generic.List<Protocol.ItemEnchantRequest>"
      ∷ field "m_materialList" "System.Collections.Generic.List<System.Int64>"
      ∷ [];
}

abbrev pub s2c_item_enchant : Message
s2c_item_enchant = record {
  name = "S2C_ItemEnchant";
  dir = "S2C";
  id = 0x3866AE7A;
  fields =
      field "m_result" "System.Int32"
      ∷ field "m_itemList" "System.Collections.Generic.List<Protocol.ItemEnchantResult>"
      ∷ [];
}

abbrev pub s2c_item_enchant_broken_give_notify : Message
s2c_item_enchant_broken_give_notify = record {
  name = "S2C_ItemEnchantBrokenGiveNotify";
  dir = "S2C";
  id = 0x138583DF;
  fields =
      field "m_brokenGiveList" "System.Collections.Generic.List<Protocol.ItemBrokenGiveData>" ∷ [];
}

abbrev pub c2s_item_eryndor_enchant : Message
c2s_item_eryndor_enchant = record {
  name = "C2S_ItemEryndorEnchant";
  dir = "C2S";
  id = 0x0C59A2F3;
  fields =
      field "m_itemList" "System.Collections.Generic.List<System.Int64>"
      ∷ field "m_materialList" "System.Collections.Generic.List<System.Int64>"
      ∷ field "m_isConfirmed" "System.Boolean"
      ∷ [];
}

abbrev pub s2c_item_eryndor_enchant : Message
s2c_item_eryndor_enchant = record {
  name = "S2C_ItemEryndorEnchant";
  dir = "S2C";
  id = 0x107C8053;
  fields =
      field "m_result" "System.Int32"
      ∷ field "m_itemList" "System.Collections.Generic.List<Protocol.ItemEnchantResult>"
      ∷ [];
}

abbrev pub c2s_item_eryndor_imprinting : Message
c2s_item_eryndor_imprinting = record {
  name = "C2S_ItemEryndorImprinting";
  dir = "C2S";
  id = 0x34C1F2CC;
  fields =
      field "m_materialList" "System.Collections.Generic.List<System.Int64>"
      ∷ field "m_protectType" "System.Collections.Generic.List<System.Byte>"
      ∷ field "m_protectMaterialType" "System.Byte"
      ∷ [];
}

abbrev pub s2c_item_eryndor_imprinting : Message
s2c_item_eryndor_imprinting = record {
  name = "S2C_ItemEryndorImprinting";
  dir = "S2C";
  id = 0x16199E22;
  fields =
      field "m_result" "System.Int32"
      ∷ field "m_state" "System.Byte"
      ∷ field "m_imprintingResult" "System.Collections.Generic.List<Protocol.EryndorImprintingInfo>"
      ∷ [];
}

abbrev pub c2s_item_eryndor_imprinting_list : Message
c2s_item_eryndor_imprinting_list = record {
  name = "C2S_ItemEryndorImprintingList";
  dir = "C2S";
  id = 0x3AFA08CF;
  fields = [];
}

abbrev pub s2c_item_eryndor_imprinting_list : Message
s2c_item_eryndor_imprinting_list = record {
  name = "S2C_ItemEryndorImprintingList";
  dir = "S2C";
  id = 0x0A5EE21A;
  fields =
      field "m_result" "System.Int32"
      ∷ field "m_state" "System.Byte"
      ∷ field "m_imprintingList" "System.Collections.Generic.List<Protocol.EryndorImprintingInfo>"
      ∷ [];
}

abbrev pub c2s_item_eryndor_imprinting_reset : Message
c2s_item_eryndor_imprinting_reset = record {
  name = "C2S_ItemEryndorImprintingReset";
  dir = "C2S";
  id = 0x254160E1;
  fields =
      field "m_protectSlotIndex" "System.Collections.Generic.List<System.Byte>"
      ∷ field "m_protectMaterialType" "System.Byte"
      ∷ [];
}

abbrev pub s2c_item_eryndor_imprinting_reset : Message
s2c_item_eryndor_imprinting_reset = record {
  name = "S2C_ItemEryndorImprintingReset";
  dir = "S2C";
  id = 0x0F43D59A;
  fields =
      field "m_result" "System.Int32"
      ∷ field "m_state" "System.Byte"
      ∷ field "m_imprintingList" "System.Collections.Generic.List<Protocol.EryndorImprintingInfo>"
      ∷ [];
}

abbrev pub c2s_item_eryndor_promotion : Message
c2s_item_eryndor_promotion = record {
  name = "C2S_ItemEryndorPromotion";
  dir = "C2S";
  id = 0x2B951290;
  fields =
      field "m_targetItem" "System.Int64"
      ∷ field "m_materialItemList" "System.Collections.Generic.List<System.Int64>"
      ∷ [];
}

abbrev pub s2c_item_eryndor_promotion : Message
s2c_item_eryndor_promotion = record {
  name = "S2C_ItemEryndorPromotion";
  dir = "S2C";
  id = 0x15BA70FE;
  fields = field "m_result" "System.Int32" ∷ field "m_resultItemIndex" "System.Int32" ∷ [];
}

abbrev pub c2s_item_eryndor_regrant : Message
c2s_item_eryndor_regrant = record {
  name = "C2S_ItemEryndorRegrant";
  dir = "C2S";
  id = 0x171A387D;
  fields =
      field "m_targetItem" "System.Int64"
      ∷ field "m_materialItem" "System.Int64"
      ∷ field "m_selectSlot" "System.Int32"
      ∷ [];
}

abbrev pub s2c_item_eryndor_regrant : Message
s2c_item_eryndor_regrant = record {
  name = "S2C_ItemEryndorRegrant";
  dir = "S2C";
  id = 0x0BD2853A;
  fields =
      field "m_result" "System.Int32"
      ∷ field "m_targetItem" "System.Int64"
      ∷ field "m_selectSlot" "System.Int32"
      ∷ field "m_regrantOption" "System.Int32"
      ∷ [];
}
