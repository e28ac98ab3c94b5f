-- ===== src/Protocol/Messages/Crafting.antt =====
-- internal/protocol/catalog_gen.go: the messages of the item crafting: composing, dissolving and making.
use rom_server_poc.Prelude.{[], ◌∷◌}
use rom_server_poc.Protocol.Catalog.{Message, field}

abbrev pub c2s_item_compose : Message
c2s_item_compose = record {
  name = "C2S_ItemCompose";
  dir = "C2S";
  id = 0x077573E9;
  fields =
      field "m_slotTableIndex" "System.Int32"
      ∷ field "m_materialItemOIDList" "System.Collections.Generic.List<System.Int64>"
      ∷ [];
}

abbrev pub s2c_item_compose : Message
s2c_item_compose = record {
  name = "S2C_ItemCompose";
  dir = "S2C";
  id = 0x17C5015C;
  fields = field "m_result" "System.Int32" ∷ field "m_resultItemIndex" "System.Int32" ∷ [];
}

abbrev pub c2s_item_compose_board_info : Message
c2s_item_compose_board_info = record {
  name = "C2S_ItemComposeBoardInfo";
  dir = "C2S";
  id = 0x29F05F16;
  fields = field "m_isRefresh" "System.Boolean" ∷ [];
}

abbrev pub s2c_item_compose_board_info : Message
s2c_item_compose_board_info = record {
  name = "S2C_ItemComposeBoardInfo";
  dir = "S2C";
  id = 0x2150C57B;
  fields =
      field "m_result" "System.Int32"
      ∷ field "m_itemIndexList" "System.Collections.Generic.List<System.Int32>"
      ∷ [];
}

abbrev pub c2s_item_dissolve : Message
c2s_item_dissolve = record {
  name = "C2S_ItemDissolve";
  dir = "C2S";
  id = 0x1362250D;
  fields = field "m_dissolveList" "System.Collections.Generic.List<Protocol.DissolveData>" ∷ [];
}

abbrev pub s2c_item_dissolve : Message
s2c_item_dissolve = record {
  name = "S2C_ItemDissolve";
  dir = "S2C";
  id = 0x044E1411;
  fields =
      field "m_result" "System.Int32"
      ∷ field "m_rewardList" "System.Collections.Generic.List<Protocol.DissolveRewardData>"
      ∷ [];
}

abbrev pub c2s_item_make : Message
c2s_item_make = record {
  name = "C2S_ItemMake";
  dir = "C2S";
  id = 0x1810D590;
  fields =
      field "m_makeItemIndex" "System.Int32"
      ∷ field "m_makeCount" "System.Int32"
      ∷ field "m_belongType" "System.Byte"
      ∷ field "m_alternateItemIndexList" "System.Collections.Generic.List<System.Int32>"
      ∷ [];
}

abbrev pub s2c_item_make : Message
s2c_item_make = record {
  name = "S2C_ItemMake";
  dir = "S2C";
  id = 0x11A1C7F5;
  fields =
      field "m_result" "System.Int32"
      ∷ field "m_makeType" "System.Byte"
      ∷ field "m_makeItemIndex" "System.Int32"
      ∷ field "m_makeLimitCount" "System.Int32"
      ∷ field "m_totalLimitCount" "System.Int32"
      ∷ field "m_makeResultList" "System.Collections.Generic.List<Protocol.ItemMakeResultInfo>"
      ∷ [];
}

abbrev pub c2s_item_make_limit_list : Message
c2s_item_make_limit_list = record {
  name = "C2S_ItemMakeLimitList";
  dir = "C2S";
  id = 0x2F15141A;
  fields = field "m_requestType" "System.Byte" ∷ [];
}

abbrev pub s2c_item_make_limit_list : Message
s2c_item_make_limit_list = record {
  name = "S2C_ItemMakeLimitList";
  dir = "S2C";
  id = 0x10C72BCF;
  fields =
      field "m_requestType" "System.Byte"
      ∷ field "m_makeLimitList" "System.Collections.Generic.List<Protocol.ItemMakeLimitInfo>"
      ∷ field "m_totalLimitList" "System.Collections.Generic.List<Protocol.ItemMakeLimitInfo>"
      ∷ [];
}

abbrev pub c2s_item_make_limit_list_refresh : Message
c2s_item_make_limit_list_refresh = record {
  name = "C2S_ItemMakeLimitListRefresh";
  dir = "C2S";
  id = 0x01BE8DCC;
  fields = field "m_requestType" "System.Byte" ∷ [];
}

abbrev pub s2c_item_make_limit_list_refresh : Message
s2c_item_make_limit_list_refresh = record {
  name = "S2C_ItemMakeLimitListRefresh";
  dir = "S2C";
  id = 0x068DEB65;
  fields =
      field "m_requestType" "System.Byte"
      ∷ field "m_totalLimitList" "System.Collections.Generic.List<Protocol.ItemMakeLimitInfo>"
      ∷ [];
}
