-- ===== src/H5/Prepare/Delimiters.antt =====
-- Where delimiters stand in a frame.
