-- ===== src/Protocol/Messages/Login.antt =====
-- internal/protocol/catalog_gen.go: the messages of the login.
use rom_server_poc.Prelude.{[], ◌∷◌}
use rom_server_poc.Protocol.Catalog.{Message, field}

abbrev pub c2s_version_check : Message
c2s_version_check = record {
  name = "C2S_VersionCheck";
  dir = "C2S";
  id = 0x1CC28AAC;
  fields =
      field "m_protocolVer" "System.Int32"
      ∷ field "m_socketUID" "System.Int64"
      ∷ field "m_connectionKey" "System.Int64"
      ∷ [];
}

abbrev pub s2c_version_check : Message
s2c_version_check = record {
  name = "S2C_VersionCheck";
  dir = "S2C";
  id = 0x30A5DEED;
  fields =
      field "m_protocolVer" "System.Int32"
      ∷ field "m_serverID" "System.Int32"
      ∷ field "m_utcTimeOffset" "System.Int32"
      ∷ field "m_serverTime" "System.Int64"
      ∷ field "m_serverTick" "System.Int64"
      ∷ [];
}

abbrev pub c2s_session_auth_login : Message
c2s_session_auth_login = record {
  name = "C2S_SessionAuthLogin";
  dir = "C2S";
  id = 0x11C4978B;
  fields =
      field "m_worldGroupID" "System.Int32"
      ∷ field "m_accountCode" "System.String"
      ∷ field "m_sessionKey" "System.Int32"
      ∷ field "m_deviceOS" "System.Byte"
      ∷ field "m_deviceID" "System.String"
      ∷ field "m_deviceLangCode" "System.String"
      ∷ field "m_countryCode" "System.String"
      ∷ field "m_platformType" "System.Byte"
      ∷ field "m_deviceName" "System.String"
      ∷ field "m_useGameGuard" "System.Boolean"
      ∷ field "m_systemLan" "System.String"
      ∷ field "m_processorType" "System.String"
      ∷ [];
}

abbrev pub s2c_session_auth_login : Message
s2c_session_auth_login = record {
  name = "S2C_SessionAuthLogin";
  dir = "S2C";
  id = 0x1D6DAFB5;
  fields =
      field "m_result" "System.Int32"
      ∷ field "m_accountCode" "System.String"
      ∷ field "m_sessionKey" "System.Int32"
      ∷ field "m_userBlockInfo" "Protocol.UserBlockInfo"
      ∷ [];
}

abbrev pub s2c_check_connection : Message
s2c_check_connection = record {
  name = "S2C_CheckConnection";
  dir = "S2C";
  id = 0x32E4591F;
  fields =
      field "m_socketUID" "System.Int64"
      ∷ field "m_connectionKey" "System.Int64"
      ∷ field "m_clientSendIV" "System.Int64"
      ∷ field "m_serverSendIV" "System.Int64"
      ∷ field "m_encryptionKeyLow" "System.Int64"
      ∷ field "m_encryptionKeyHigh" "System.Int64"
      ∷ [];
}

abbrev pub c2s_logout : Message
c2s_logout = record {
  name = "C2S_Logout";
  dir = "C2S";
  id = 0x37A7F889;
  fields = field "m_sessionKey" "System.Int32" ∷ [];
}

abbrev pub s2c_logout : Message
s2c_logout = record {
  name = "S2C_Logout";
  dir = "S2C";
  id = 0x22790A26;
  fields = field "m_result" "System.Int32" ∷ [];
}
