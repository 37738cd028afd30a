-- ===== src/Server/Main/Overtaken.antt =====
-- `processPacket` of server/main.cpp in two threads: the lock is given back before `sendToBackups`, so
-- that another thread can come in between.
use twitter_like_client_serv.Packet.{Packet}
use twitter_like_client_serv.Server.World.{World}
use twitter_like_client_serv.Server.Graph.{Graph}
