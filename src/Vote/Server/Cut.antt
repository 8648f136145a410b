-- ===== src/Vote/Server/Cut.antt =====
-- A client that closes its connection inside a line ends the server.
